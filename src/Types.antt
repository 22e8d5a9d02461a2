-- ===== src/Types.antt =====
-- include/rito/common_types.h and src/include/internal_constants.h.
use rito.Common.{ℕ, Bytes}
use rito.Act.{Act, Done}

-- A callback acts on what lies outside, and may throw.
abbrev pub MessageCallback : Type 0 → Type 0
MessageCallback W = Bytes → Act W Done

abbrev pub ConnectionCallback : Type 0 → Type 0
ConnectionCallback W = Act W Done

abbrev pub WampCallResultCallback : Type 0 → Type 0
WampCallResultCallback W = Bytes → Bytes → Act W Done

abbrev pub WampCallErrorCallback : Type 0 → Type 0
WampCallErrorCallback W = Bytes → Bytes → Bytes → Act W Done

abbrev pub WampEventCallback : Type 0 → Type 0
WampEventCallback W = Bytes → Bytes → Act W Done

-- A Request_type holds any int: `unspecified` is a value that the enum does not name.
pub data RequestType : Type 0 where
  http_connect http_delete http_get http_head http_options : RequestType
  http_patch http_post http_put http_trace : RequestType
  unspecified : ℕ → RequestType

pub record HttpResponse : Type 0 where
  pub status : ℕ
  pub reason : Bytes
  pub response : Bytes

abbrev pub https_port : ℕ
https_port = 443
