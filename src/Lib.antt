-- ===== src/Lib.antt =====
-- A verification library for the native bridge of kotlogram (native/src, Rust), which carries calls
-- from the JVM to the Telegram client library grammers. A call is an operation name and a JSON
-- document; `dispatch` of native/src/ops/mod.rs finds the module that handles the name, the handler
-- works on the state of the client (native/src/client.rs) and on what grammers answers, and the
-- result is a document or an error message.
--
-- Every function is translated by clauses and can be evaluated. Messages of errors are the
-- constructors of `Error`. JSON, tokio, the file system, grammers and Telegram are not part of the
-- repository: a handler takes its decoded payload and what they answer as arguments, and a channel
-- or another interface of theirs is a record of operations with their documented laws. Words are
-- natural numbers with their wrap-around written out, signed words are integers.
--
--   Base: the numbers, lists, maps and bits that the files share. Error and Exec: results, and
--   functions that change a state behind a lock and may fail.
--   Base64 (native/src/dto/files.rs): the encoder and the decoder of byte strings in JSON, which
--   the upload handlers use.
--   Upload (native/src/upload.rs, the upload registry of native/src/client.rs, the upload handlers
--   of native/src/ops/files.rs): Upload.Channel is tokio's channel, Upload.Reader the two readers on
--   top of it, Upload.Delivery the runs of a producer and the uploader, Upload.Registry the maps of
--   streams, uploads and progress counters, Upload.Stream the handlers on them. The loop of
--   `poll_read` runs on fuel, two more than the chunks that wait: each turn takes a chunk off the
--   channel or is the last.
--   Login (native/src/ops/auth.rs, `AuthenticationState` of native/src/client.rs): the login flow.
--   Dispatch (native/src/ops/mod.rs and each module of native/src/ops): the operation names and the
--   routes of the modules, one file for each, and the dispatcher. A handler is a constructor there;
--   what it does is an argument.
--   Pump (native/src/update_pump/mod.rs, native/src/ops/updates.rs): the task that reads grammers'
--   stream, the handoff to its readers and the requests between polls; Pump.Runs has the steps.
--   Dialogs (native/src/ops/dialogs.rs, native/src/dto/dialog.rs): the listing of dialogs by pages and by
--   cursor, and the document of a dialog.
--   Chats (native/src/ops/chats.rs, native/src/dto/permissions.rs): the rights of members, what a
--   rights operation sends, and the peers that dialog ids stand for.
--   Contacts (native/src/ops/contacts.rs, native/src/dto/contacts.rs): the contacts; the walk over the
--   blocked peers runs on fuel, of which one turn for each hundred peers and one more are enough.
--   Client (native/src/client.rs): the clients and the peers that handles name.
--   Users (native/src/ops/users.rs): the ids that a request for users keeps.
--   Markup (native/src/ops/markup.rs, native/src/dto/markup.rs, the markup specifications of
--   native/src/payload.rs): Markup.Build builds the markup that a specification names, over grammers'
--   builders (Markup.Grammers), and Markup.Documents projects it. A text there is its UTF-8 bytes.
--   Format (native/src/payload.rs, native/src/dto/message.rs): the formatting entities that are read
--   off a message and those that a send asks for. The HTML and Markdown parsers are arguments.
--   Account (native/src/ops/account.rs, native/src/dto/account.rs, native/src/dto/notifications.rs):
--   privacy rules, notification settings, and the documents of sessions and of the password.
--   Client.Documents (native/src/dto/peer.rs): the document of a peer, which registers it; Client.Listed:
--   what a listing of peers leaves in the registry.
--   Folders (native/src/ops/folders.rs, native/src/dto/folders.rs): the dialog filters.
--   Chatlists (native/src/ops/chatlists.rs, native/src/dto/chatlists.rs): the sharing of folders.
--   Files (native/src/ops/files.rs, native/src/dto/files.rs): downloads, whole and in chunks, and the
--   pages of profile photos.
--
-- Not modelled: the JNI exports (native/src/lib.rs), the JSON codecs, the Kotlin and Android
-- modules, the TL schema, and the projections of grammers' values to documents that no listed
-- component uses; of a message's document (native/src/dto/message.rs) more than its peer and its
-- formatting; and, of the handlers, those that only build one request and project its answer.
pub mod Base
pub mod Error
pub mod Exec
pub mod Account
pub mod Base64
pub mod Chatlists
pub mod Chats
pub mod Client
pub mod Contacts
pub mod Dialogs
pub mod Dispatch
pub mod Files
pub mod Folders
pub mod Format
pub mod Login
pub mod Markup
pub mod Pump
pub mod Upload
pub mod Users
