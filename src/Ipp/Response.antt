-- ===== src/Ipp/Response.antt =====
-- crates/rip-ipp/src/lib.rs: `Response`, the writer of an IPP message. `none` is the panic of the
-- `assert!` on lengths that do not fit a `u16`. An `i32` is its bit pattern, a number below 2^32.
use rip_server.Common.{ℕ, ◌&&◌, [], ◌∷◌, ◌++◌, Option, none, some, leb, if◌then◌else◌, length}
use rip_server.Common.Bytes.{Bytes, to_be16, to_be32}

pub record Response : Type 0 where
  pub bytes : Bytes

unfoldable pub new : ℕ × ℕ → ℕ → ℕ → Response
new (v0, v1) status request_id = record {
  bytes = v0 ∷ v1 ∷ (to_be16 status ++ (to_be32 request_id ++ (1 ∷ [])));
}

-- `bytes.extend`
abbrev pub push : Response → Bytes → Response
push self more = record { bytes = self.bytes ++ more }

unfoldable pub attribute_bytes : ℕ → Bytes → Bytes → Bytes
attribute_bytes tag name value =
    tag ∷ (to_be16 (length name) ++ (name ++ (to_be16 (length value) ++ value)))

unfoldable pub attribute : Response → ℕ → Bytes → Bytes → Option Response
unfolding attribute_bytes
attribute self tag name value =
    if leb (length name) 65535 && leb (length value) 65535
    then some (push self (attribute_bytes tag name value))
    else none

unfoldable pub group : Response → ℕ → Response
group self tag = push self (tag ∷ [])

-- The length is cast to a `u16`, with no assertion.
unfoldable pub additional : Response → ℕ → Bytes → Response
additional self tag value = push self (tag ∷ 0 ∷ 0 ∷ (to_be16 (length value) ++ value))

unfoldable pub text : Response → ℕ → Bytes → Bytes → Option Response
unfolding attribute
text self tag name value = attribute self tag name value

unfoldable pub integer : Response → Bytes → ℕ → Option Response
unfolding attribute
integer self name value = attribute self 0x21 name (to_be32 value)

unfoldable pub enumeration : Response → Bytes → ℕ → Option Response
unfolding attribute
enumeration self name value = attribute self 0x23 name (to_be32 value)

unfoldable pub resolution_dpi : Response → Bytes → ℕ → Option Response
unfolding attribute
resolution_dpi self name dpi = attribute self 0x32 name (to_be32 dpi ++ (to_be32 dpi ++ (3 ∷ [])))

unfoldable pub finish : Response → Bytes
finish self = self.bytes ++ 3 ∷ []
