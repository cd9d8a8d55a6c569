-- ===== src/Format/Examples.antt =====
-- A bold word, a link and a quote, read and sent again, and types in any case.
use kotlogram.Base.{String, ◌≡◌, refl, true, List, [], ◌∷◌, map, none, some}
use kotlogram.Base.Int.{pos}
use kotlogram.Error.{ok, err, map_ok, entity_requires, unsupported_parse_mode}
use kotlogram.Dispatch.Table.{match_arms}
use kotlogram.Format.Lowercase.{lower, to_ascii_lowercase}
use kotlogram.Format.Layer.{MessageEntity}
use kotlogram.Format.Specs.{
  EntitySpec, required, entity_arms, to_message_entity, Formatted, mode_arms, parsed,
  resolve_format,
}
use kotlogram.Format.Documents.{message_entity_dto}
use kotlogram.Format.Resend.{reread, resent_all, resolve_format-reread}

abbrev three : List MessageEntity
three =
    MessageEntity.bold (pos 0) (pos 4)
    ∷ MessageEntity.text_url (pos 5) (pos 2) "https://example.org"
    ∷ MessageEntity.blockquote true (pos 8) (pos 3)
    ∷ []

abbrev unparsed : String → Formatted
unparsed text = (text, [])

abbrev a_link : EntitySpec
a_link = record {
  offset = pos 1;
  length = pos 2;
  entity_type = "textURL";
  url = none;
  user_id = none;
  language = none;
  custom_emoji_id = none;
}

-- A type is read in any case, and a missing field is refused under the type as it was written.
missing_url : to_message_entity a_link ≡ err (entity_requires "textURL" "url")
unfolding to_message_entity entity_arms match_arms to_ascii_lowercase lower required
missing_url = refl

unknown_mode : parsed unparsed unparsed "a" (some "BBCode") ≡ err (unsupported_parse_mode "bbcode")
unfolding parsed mode_arms match_arms to_ascii_lowercase lower
unknown_mode = refl

html_mode : parsed unparsed unparsed "a" (some "HTML") ≡ ok ("a", [])
unfolding parsed mode_arms match_arms to_ascii_lowercase lower
html_mode = refl

resolve_format-reread_example :
    resolve_format unparsed unparsed "a"
      (some "HTML")
      (some (map reread (map message_entity_dto three)))
    ≡ map_ok (λ again. ("a", again)) (resent_all three)
resolve_format-reread_example =
    resolve_format-reread unparsed unparsed "a" (some "HTML") ("a", []) three html_mode
