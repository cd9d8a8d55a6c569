-- ===== src/Dispatch/Stickers.antt =====
-- The operation names of native/src/ops/stickers.rs and its `route`.
use kotlogram.Base.{String, Option, List, [], ◌∷◌}
use kotlogram.Dispatch.Handlers.{
  Handler, get_sticker_set, get_all_stickers, get_recent_stickers, get_faved_stickers,
  install_sticker_set, uninstall_sticker_set, send_sticker,
}
use kotlogram.Dispatch.Table.{Table, match_arms}

abbrev pub operations : List String
operations =
    "messagesGetStickerSet" ∷ "messagesGetAllStickers" ∷ "messagesGetRecentStickers"
    ∷ "messagesGetFavedStickers" ∷ "messagesInstallStickerSet" ∷ "messagesUninstallStickerSet"
    ∷ "sendSticker" ∷ []

abbrev pub arms : Table Handler
arms =
    ("messagesGetStickerSet", get_sticker_set)
    ∷ ("messagesGetAllStickers", get_all_stickers)
    ∷ ("messagesGetRecentStickers", get_recent_stickers)
    ∷ ("messagesGetFavedStickers", get_faved_stickers)
    ∷ ("messagesInstallStickerSet", install_sticker_set)
    ∷ ("messagesUninstallStickerSet", uninstall_sticker_set)
    ∷ ("sendSticker", send_sticker)
    ∷ []

unfoldable pub route : String → Option Handler
route operation = match_arms operation arms
