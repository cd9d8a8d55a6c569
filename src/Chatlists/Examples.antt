-- ===== src/Chatlists/Examples.antt =====
-- Join URLs of both shapes, and one whose query misleads the search for the newer shape.
use kotlogram.Base.{◌≡◌, refl, ◌++◌}
use kotlogram.Base64.{codes}
use kotlogram.Error.{ok, err, no_slug}
use kotlogram.Chatlists.Slug.{
  after_prefix, split_once, until_separator, checked_slug, tail_of, slug_in, slug_of,
}
use kotlogram.Chatlists.Slugs.{older, base, slug_of-join_url}
use kotlogram.Chatlists.Readings.{Reading, slug_of-Reading}

newer : slug_of (codes "https://t.me/+AbCd?single") ≡ ok (codes "AbCd")
unfolding slug_of slug_in tail_of split_once after_prefix until_separator checked_slug
newer = refl

no_shape : slug_of (codes "https://t.me/") ≡ err (no_slug (codes "https://t.me/"))
unfolding slug_of slug_in tail_of split_once after_prefix
no_shape = refl

-- The part after the misleading slash and plus sign is taken for the slug.
misled : slug_of (codes "https://t.me/joinchat/AbCd?u=/+x") ≡ ok (codes "x")
unfolding slug_of slug_in tail_of split_once after_prefix until_separator checked_slug
misled = refl

slug_of-join_url_example :
    slug_of (base older ++ (codes "AbCd" ++ codes "?single")) ≡ ok (codes "AbCd")
unfolding split_once after_prefix
slug_of-join_url_example =
    slug_of-join_url older b'A' (codes "bCd") (codes "?single") (refl, (refl, (refl, (refl, tt))))
      refl refl

slug_of-Reading_example :
    Reading (codes "https://t.me/+AbCd?single") (slug_of (codes "https://t.me/+AbCd?single"))
slug_of-Reading_example = slug_of-Reading (codes "https://t.me/+AbCd?single")
