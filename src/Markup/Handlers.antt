-- ===== src/Markup/Handlers.antt =====
-- The five operations of native/src/ops/markup.rs over the builders. A build operation answers the
-- document of the markup that its specification names; `getReplyMarkup` reads the markup of a message
-- that grammers answers.
use kotlogram.Base.{List, [], ◌∷◌, Option, none, some}
use kotlogram.Base.Int.{ℤ}
use kotlogram.Error.{Result, ok, ◌>>=◌, ok_or, message_not_found}
use kotlogram.Markup.Specs.{
  MarkupSpec, InlineMarkupPayload, ReplyKeyboardPayload, ForceReplyPayload, HideKeyboardPayload,
}
use kotlogram.Markup.Layer.{ReplyMarkup}
use kotlogram.Markup.Grammers.{Builders}
use kotlogram.Markup.Build.{reply_markup_from_spec}
use kotlogram.Markup.Documents.{ReplyMarkupDto, markup_dto, reply_markup_dto}

module _ (b : Builders) where
  -- json_string(markup_dto(&reply_markup_from_spec(&spec)?))
  unfoldable pub build_document : MarkupSpec → Result ReplyMarkupDto
  build_document spec = do markup ← reply_markup_from_spec b spec; ok (markup_dto markup)

  unfoldable pub build_inline_markup : InlineMarkupPayload → Result ReplyMarkupDto
  build_inline_markup payload = build_document (MarkupSpec.inline payload.rows)

  unfoldable pub build_reply_keyboard : ReplyKeyboardPayload → Result ReplyMarkupDto
  build_reply_keyboard payload =
      build_document
        (MarkupSpec.keyboard payload.rows payload.fit_size payload.single_use payload.selective)

  unfoldable pub build_force_reply : ForceReplyPayload → Result ReplyMarkupDto
  build_force_reply payload =
      build_document (MarkupSpec.force_reply payload.single_use payload.selective)

  unfoldable pub build_hide_keyboard : HideKeyboardPayload → Result ReplyMarkupDto
  build_hide_keyboard payload = build_document (MarkupSpec.hide payload.selective)

-- .into_iter().flatten().next()
unfoldable pub first_present {ℓ} : {A : Type ℓ} → List (Option A) → Option A
first_present [] = none
first_present (none ∷ others) = first_present others
first_present (some a ∷ others) = some a

-- message.reply_markup().as_ref().map(reply_markup_dto)
unfoldable pub document_of : Option ReplyMarkup → Option ReplyMarkupDto
document_of none = none
document_of (some markup) = some (reply_markup_dto markup)

-- `peer` is the resolved peer, `get_messages_by_id` what grammers answers for the ids.
unfoldable pub get_reply_markup :
    {PeerRef Message : Type 0} (reply_markup : (Message → Option ReplyMarkup))
    (get_messages_by_id : (PeerRef → List ℤ → Result (List (Option Message))))
    → Result PeerRef
    → ℤ
    → Result (Option ReplyMarkupDto)
get_reply_markup reply_markup get_messages_by_id peer id = do
  peer ← peer
  messages ← get_messages_by_id peer (id ∷ [])
  message ← ok_or (first_present messages) (message_not_found id)
  ok (document_of (reply_markup message))
