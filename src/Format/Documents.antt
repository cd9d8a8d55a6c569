-- ===== src/Format/Documents.antt =====
-- native/src/dto/message.rs: the document of a formatting entity.
use kotlogram.Base.{String, Option, none, some}
use kotlogram.Base.Int.{ℤ}
use kotlogram.Format.Layer.{MessageEntity}

pub record MessageEntityDto : Type 0 where
  pub entity_type : String
  pub offset : ℤ
  pub length : ℤ
  pub url : Option String
  pub user_id : Option ℤ
  pub language : Option String
  pub custom_emoji_id : Option ℤ

unfoldable pub plain : String → ℤ → ℤ → MessageEntityDto
plain entity_type offset length = record {
  entity_type = entity_type;
  offset = offset;
  length = length;
  url = none;
  user_id = none;
  language = none;
  custom_emoji_id = none;
}

unfoldable pub message_entity_dto : MessageEntity → MessageEntityDto
message_entity_dto (MessageEntity.unknown offset length) = plain "unknown" offset length
message_entity_dto (MessageEntity.mention offset length) = plain "mention" offset length
message_entity_dto (MessageEntity.hashtag offset length) = plain "hashtag" offset length
message_entity_dto (MessageEntity.bot_command offset length) = plain "botCommand" offset length
message_entity_dto (MessageEntity.url offset length) = plain "url" offset length
message_entity_dto (MessageEntity.email offset length) = plain "email" offset length
message_entity_dto (MessageEntity.bold offset length) = plain "bold" offset length
message_entity_dto (MessageEntity.italic offset length) = plain "italic" offset length
message_entity_dto (MessageEntity.code offset length) = plain "code" offset length
message_entity_dto (MessageEntity.input_mention_name offset length) =
    plain "inputMessageEntityMentionName" offset length
message_entity_dto (MessageEntity.phone offset length) = plain "phone" offset length
message_entity_dto (MessageEntity.cashtag offset length) = plain "cashtag" offset length
message_entity_dto (MessageEntity.underline offset length) = plain "underline" offset length
message_entity_dto (MessageEntity.strike offset length) = plain "strike" offset length
message_entity_dto (MessageEntity.bank_card offset length) = plain "bankCard" offset length
message_entity_dto (MessageEntity.spoiler offset length) = plain "spoiler" offset length
message_entity_dto (MessageEntity.formatted_date offset length) =
    plain "formattedDate" offset length
message_entity_dto (MessageEntity.diff_insert offset length) = plain "diffInsert" offset length
message_entity_dto (MessageEntity.diff_replace offset length) = plain "diffReplace" offset length
message_entity_dto (MessageEntity.diff_delete offset length) = plain "diffDelete" offset length
message_entity_dto (MessageEntity.ton_address offset length) = plain "tonAddress" offset length
message_entity_dto (MessageEntity.pre offset length tag) = record (plain "pre" offset length) {
  language = some tag;
}
message_entity_dto (MessageEntity.text_url offset length u) =
    record (plain "textUrl" offset length) { url = some u }
message_entity_dto (MessageEntity.mention_name offset length id) =
    record (plain "mentionName" offset length) { user_id = some id }
message_entity_dto (MessageEntity.custom_emoji offset length id) =
    record (plain "customEmoji" offset length) { custom_emoji_id = some id }
message_entity_dto (MessageEntity.blockquote collapsed offset length) =
    plain "blockquote" offset length
