-- ===== src/Format/Resend.antt =====
-- A received text can be sent again with its entities.
use kotlogram.Base.{String, ◌≡◌, refl, false, List, [], ◌∷◌, map, Option, some, inl, inr}
use kotlogram.Error.{Result, ok, err, ◌>>=◌, map_ok, unknown_entity_type, Result-cases}
use kotlogram.Dispatch.Table.{match_arms}
use kotlogram.Format.Lowercase.{lower, to_ascii_lowercase}
use kotlogram.Format.Layer.{MessageEntity}
use kotlogram.Format.Specs.{
  EntitySpec, required, or_empty, entity_arms, to_message_entity, message_entities, Formatted,
  parsed, resolve_format,
}
use kotlogram.Format.Documents.{MessageEntityDto, plain, message_entity_dto}

-- A document read as a specification: the JSON objects have the same fields.
abbrev pub reread : MessageEntityDto → EntitySpec
reread dto = record {
  offset = dto.offset;
  length = dto.length;
  entity_type = dto.entity_type;
  url = dto.url;
  user_id = dto.user_id;
  language = dto.language;
  custom_emoji_id = dto.custom_emoji_id;
}

-- The entity that a specification can ask for: a quote opens, and seven types have no specification.
abbrev pub resent : MessageEntity → Result MessageEntity
resent (MessageEntity.blockquote collapsed offset length) =
    ok (MessageEntity.blockquote false offset length)
resent (MessageEntity.unknown offset length) = err (unknown_entity_type "unknown")
resent (MessageEntity.input_mention_name offset length) =
    err (unknown_entity_type "inputmessageentitymentionname")
resent (MessageEntity.formatted_date offset length) = err (unknown_entity_type "formatteddate")
resent (MessageEntity.diff_insert offset length) = err (unknown_entity_type "diffinsert")
resent (MessageEntity.diff_replace offset length) = err (unknown_entity_type "diffreplace")
resent (MessageEntity.diff_delete offset length) = err (unknown_entity_type "diffdelete")
resent (MessageEntity.ton_address offset length) = err (unknown_entity_type "tonaddress")
resent other = ok other

abbrev pub resent_all : List MessageEntity → Result (List MessageEntity)
resent_all [] = ok []
resent_all (entity ∷ entities) = do
  again ← resent entity
  rest ← resent_all entities
  ok (again ∷ rest)

to_message_entity-reread :
    (entity : MessageEntity)
    → to_message_entity (reread (message_entity_dto entity)) ≡ resent entity
unfolding to_message_entity message_entity_dto plain entity_arms match_arms to_ascii_lowercase lower
    required or_empty
to_message_entity-reread (MessageEntity.unknown offset length) = refl
to_message_entity-reread (MessageEntity.mention offset length) = refl
to_message_entity-reread (MessageEntity.hashtag offset length) = refl
to_message_entity-reread (MessageEntity.bot_command offset length) = refl
to_message_entity-reread (MessageEntity.url offset length) = refl
to_message_entity-reread (MessageEntity.email offset length) = refl
to_message_entity-reread (MessageEntity.bold offset length) = refl
to_message_entity-reread (MessageEntity.italic offset length) = refl
to_message_entity-reread (MessageEntity.code offset length) = refl
to_message_entity-reread (MessageEntity.input_mention_name offset length) = refl
to_message_entity-reread (MessageEntity.phone offset length) = refl
to_message_entity-reread (MessageEntity.cashtag offset length) = refl
to_message_entity-reread (MessageEntity.underline offset length) = refl
to_message_entity-reread (MessageEntity.strike offset length) = refl
to_message_entity-reread (MessageEntity.bank_card offset length) = refl
to_message_entity-reread (MessageEntity.spoiler offset length) = refl
to_message_entity-reread (MessageEntity.formatted_date offset length) = refl
to_message_entity-reread (MessageEntity.diff_insert offset length) = refl
to_message_entity-reread (MessageEntity.diff_replace offset length) = refl
to_message_entity-reread (MessageEntity.diff_delete offset length) = refl
to_message_entity-reread (MessageEntity.ton_address offset length) = refl
to_message_entity-reread (MessageEntity.pre offset length tag) = refl
to_message_entity-reread (MessageEntity.text_url offset length u) = refl
to_message_entity-reread (MessageEntity.mention_name offset length id) = refl
to_message_entity-reread (MessageEntity.custom_emoji offset length id) = refl
to_message_entity-reread (MessageEntity.blockquote collapsed offset length) = refl

message_entities-reread :
    (entities : List MessageEntity)
    → message_entities (map reread (map message_entity_dto entities)) ≡ resent_all entities
unfolding message_entities
message_entities-reread [] = refl
message_entities-reread (entity ∷ entities) =
    rw (to_message_entity-reread entity, message_entities-reread entities)

module _ (parse_html_message parse_markdown_message : (String → Formatted)) where
  -- Where the parse mode is one of those that exist, entities that were read from a message and are sent
  -- again decide the formatting, whatever the parser makes of the text: the text is the parser's, and
  -- the entities are the same, in the same order, only that a collapsed quote opens. The first one of a
  -- type that has no specification (unknown, input mention, formatted date, the three of a difference,
  -- wallet address) is refused by its name.
  pub resolve_format-reread :
      (text : String) (mode : Option String) (formatted : Formatted) (entities : List MessageEntity)
      → parsed parse_html_message parse_markdown_message text mode ≡ ok formatted
      → resolve_format parse_html_message parse_markdown_message text mode
          (some (map reread (map message_entity_dto entities)))
        ≡ map_ok (λ again. (formatted.0, again)) (resent_all entities)
  unfolding resolve_format
  resolve_format-reread text mode formatted entities accepted =
      rw (accepted, message_entities-reread entities)
        (elim (Result-cases (resent_all entities)) [
          | inl (again, all) ↦ rw all
          | inr (e, first) ↦ rw first
        ])
