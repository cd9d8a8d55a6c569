-- ===== src/Format/Specs.antt =====
-- native/src/payload.rs: the file that a send names, the entities that it asks for, and the text and
-- entities that a parse mode comes to. grammers' parsers are arguments.
use kotlogram.Base.{String, false, List, [], ◌∷◌, Option, none, some}
use kotlogram.Base.Int.{ℤ}
use kotlogram.Error.{
  Result, ok, err, ◌>>=◌, ok_or, one_source_required, entity_requires, unknown_entity_type,
  unsupported_parse_mode,
}
use kotlogram.Dispatch.Table.{Table, match_arms}
use kotlogram.Format.Lowercase.{to_ascii_lowercase}
use kotlogram.Format.Layer.{MessageEntity}

pub data FileSource : Type 0 where
  path : String → FileSource
  handle : ℤ → FileSource

unfoldable pub file_source : Option String → Option ℤ → Result FileSource
file_source (some p) none = ok (FileSource.path p)
file_source none (some h) = ok (FileSource.handle h)
file_source (some p) (some h) = err one_source_required
file_source none none = err one_source_required

pub record EntitySpec : Type 0 where
  pub offset : ℤ
  pub length : ℤ
  pub entity_type : String
  pub url : Option String
  pub user_id : Option ℤ
  pub language : Option String
  pub custom_emoji_id : Option ℤ

unfoldable pub required {ℓ} : {T : Type ℓ} → EntitySpec → String → Option T → Result T
required self name value = ok_or value (entity_requires self.entity_type name)

-- option.unwrap_or_default()
unfoldable pub or_empty : Option String → String
or_empty none = ""
or_empty (some s) = s

-- The arms of the match of `to_message_entity`, without the last.
unfoldable pub entity_arms : Table (EntitySpec → Result MessageEntity)
entity_arms =
    ("mention", λ self. ok (MessageEntity.mention self.offset self.length))
    ∷ ("hashtag", λ self. ok (MessageEntity.hashtag self.offset self.length))
    ∷ ("botcommand", λ self. ok (MessageEntity.bot_command self.offset self.length))
    ∷ ("url", λ self. ok (MessageEntity.url self.offset self.length))
    ∷ ("email", λ self. ok (MessageEntity.email self.offset self.length))
    ∷ ("bold", λ self. ok (MessageEntity.bold self.offset self.length))
    ∷ ("italic", λ self. ok (MessageEntity.italic self.offset self.length))
    ∷ ("code", λ self. ok (MessageEntity.code self.offset self.length))
    ∷ ("phone", λ self. ok (MessageEntity.phone self.offset self.length))
    ∷ ("cashtag", λ self. ok (MessageEntity.cashtag self.offset self.length))
    ∷ ("underline", λ self. ok (MessageEntity.underline self.offset self.length))
    ∷ ("strike", λ self. ok (MessageEntity.strike self.offset self.length))
    ∷ ("bankcard", λ self. ok (MessageEntity.bank_card self.offset self.length))
    ∷ ("spoiler", λ self. ok (MessageEntity.spoiler self.offset self.length))
    ∷ ("blockquote", λ self. ok (MessageEntity.blockquote false self.offset self.length))
    ∷ ("pre", λ self. ok (MessageEntity.pre self.offset self.length (or_empty self.language)))
    ∷ (
      "texturl",
      λ self. do
        url ← required self "url" self.url
        ok (MessageEntity.text_url self.offset self.length url),
    )
    ∷ (
      "mentionname",
      λ self. do
        user_id ← required self "userId" self.user_id
        ok (MessageEntity.mention_name self.offset self.length user_id),
    )
    ∷ (
      "customemoji",
      λ self. do
        id ← required self "customEmojiId" self.custom_emoji_id
        ok (MessageEntity.custom_emoji self.offset self.length id),
    )
    ∷ []

unfoldable pub to_message_entity : EntitySpec → Result MessageEntity
to_message_entity self = elim (match_arms (to_ascii_lowercase self.entity_type) entity_arms) [
  | some arm ↦ arm self
  | none ↦ err (unknown_entity_type (to_ascii_lowercase self.entity_type))
]

unfoldable pub message_entities : List EntitySpec → Result (List MessageEntity)
message_entities [] = ok []
message_entities (spec ∷ specs) = do
  entity ← to_message_entity spec
  entities ← message_entities specs
  ok (entity ∷ entities)

-- A text with its entities.
abbrev pub Formatted : Type 0
Formatted = String × List MessageEntity

module _ (parse_html_message parse_markdown_message : (String → Formatted)) where
  unfoldable pub mode_arms : Table (String → Formatted)
  mode_arms =
      ("", λ text. (text, []))
      ∷ ("none", λ text. (text, []))
      ∷ ("html", parse_html_message)
      ∷ ("markdown", parse_markdown_message)
      ∷ []

  unfoldable pub parsed : String → Option String → Result Formatted
  parsed text none = ok (text, [])
  parsed text (some mode) = elim (match_arms (to_ascii_lowercase mode) mode_arms) [
    | some parse ↦ ok (parse text)
    | none ↦ err (unsupported_parse_mode (to_ascii_lowercase mode))
  ]

  unfoldable pub resolve_format :
      String → Option String → Option (List EntitySpec) → Result Formatted
  resolve_format text parse_mode none = parsed text parse_mode
  resolve_format text parse_mode (some specs) = do
    formatted ← parsed text parse_mode
    resolved ← message_entities specs
    ok (formatted.0, resolved)
