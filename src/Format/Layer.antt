-- ===== src/Format/Layer.antt =====
-- The layer's formatting entities, as the schema of kotlogramme-kotlin/src/main/resources/raw declares
-- them and `message_entity_dto` matches on them. Left out are the fields that nothing here reads: the
-- user of an input mention, the options of a formatted date and the text that a replacement replaces.
use kotlogram.Base.{String, Bool}
use kotlogram.Base.Int.{ℤ}

pub data MessageEntity : Type 0 where
  unknown mention hashtag bot_command url email bold italic code :
      (offset length : ℤ) → MessageEntity
  input_mention_name phone cashtag underline strike bank_card spoiler :
      (offset length : ℤ) → MessageEntity
  formatted_date diff_insert diff_replace diff_delete ton_address :
      (offset length : ℤ) → MessageEntity
  pre : (offset length : ℤ) → (language : String) → MessageEntity
  text_url : (offset length : ℤ) → (url : String) → MessageEntity
  mention_name : (offset length : ℤ) → (user_id : ℤ) → MessageEntity
  custom_emoji : (offset length : ℤ) → (document_id : ℤ) → MessageEntity
  blockquote : (collapsed : Bool) → (offset length : ℤ) → MessageEntity
