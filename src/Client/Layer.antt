-- ===== src/Client/Layer.antt =====
-- The peers that requests name and that answers refer to, as the schema of
-- kotlogramme-kotlin/src/main/resources/raw declares them.
use kotlogram.Base.Int.{ℤ}

pub record InputChannel : Type 0 where
  pub channel_id : ℤ
  pub access_hash : ℤ

pub data InputPeer : Type 0 where
  empty peer_self : InputPeer
  chat : (chat_id : ℤ) → InputPeer
  user : (user_id access_hash : ℤ) → InputPeer
  channel : InputChannel → InputPeer
  user_from_message : InputPeer → (msg_id user_id : ℤ) → InputPeer
  channel_from_message : InputPeer → (msg_id channel_id : ℤ) → InputPeer
