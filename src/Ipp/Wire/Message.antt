-- ===== src/Ipp/Wire/Message.antt =====
-- crates/rip-ipp/src/lib.rs: a whole message, from `Response::new` to `Response::finish`, and back.
use rip_server.Common.{
  ℕ, suc, ◌/◌, ◌%◌, ◌^◌, ◌≤◌, ◌<◌, ◌≡◌, refl, ap, ◌∙◌, ◌⊎◌, inl, true, false, not, List, [], ◌∷◌,
  ◌++◌, Option, some, length, length-append, append_assoc, append-nil, Result, ok, arith, ◌==◌,
  ◌&&◌, ◌||◌,
}
use rip_server.Common.Bytes.{Bytes, be16, be32, to_be32}
use rip_server.Ipp.{ParseError, Attribute}
use rip_server.Ipp.Wire.{Scan, scan, close, parse, first_scan, starts_in_operation_group}
use rip_server.Ipp.Wire.Pieces.{round-group}
use rip_server.Ipp.Wire.RoundTrip.{behind, Ended, Ended-go, scan-encode}
use rip_server.Ipp.Wire.Items.{
  attribute, additional, group, Item, write, contents, IsMessage, encode,
}
use rip_server.Ipp.Response
use rip_server.Ipp.Response.{Response, push}

length-behind :
    (items : List Item) (document : Bytes) → length (encode items) ≤ length (behind items document)
unfolding behind
length-behind items document = omega (arith, length-append (encode items) (3 ∷ document))

attribute_fits :
    (tag : ℕ) (name value : Bytes) (r : Response)
    → length name ≤ 65535
    → length value ≤ 65535
    → Response.attribute r tag name value ≡ some (push r (Response.attribute_bytes tag name value))
unfolding Response.attribute
attribute_fits tag name value r h k = ground arith

write-attribute :
    (tag : ℕ) (name value : Bytes) (items : List Item) (r r' : Response)
    → Response.attribute r tag name value ≡ some r'
    → write (attribute tag name value ∷ items) r ≡ write items r'
unfolding write
write-attribute tag name value items r r' e = rw (e, write)

write-encode :
    (g : ℕ) (current : Bytes) (items : List Item) (r : Response)
    → IsMessage g current items
    → write items r ≡ some (push r (encode items))
unfolding write encode Response.group Response.additional Response.attribute_bytes
write-encode g current [] r m = rw append-nil
write-encode g current (attribute tag name value ∷ items) r m =
    let whole = Response.attribute_bytes tag name value in
    write-attribute tag name value items r _
      (attribute_fits tag name value r (omega arith) (omega arith))
    ∙ write-encode g name items (push r whole) m.5
    ∙ ap (λ x. some (record { bytes = x })) (append_assoc r.bytes whole (encode items))
write-encode g current (additional tag value ∷ items) r m =
    write-encode g current items (Response.additional r tag value) m.4
    ∙ ap (λ x. some (record { bytes = x })) (append_assoc r.bytes _ (encode items))
write-encode g current (group tag ∷ items) r m =
    write-encode tag [] items (Response.group r tag) m.2
    ∙ ap (λ x. some (record { bytes = x })) (append_assoc r.bytes _ (encode items))

-- The whole input: the eight fixed bytes, the first group tag, the calls, the end tag, the document.
message : ℕ → ℕ → ℕ → ℕ → Bytes → Bytes
message v0 v1 status id body =
    v0 ∷ v1 ∷ status / 256 % 256 ∷ status % 256 ∷ (to_be32 id ++ (1 ∷ body))

finish-message :
    (v0 v1 status id : ℕ) (items : List Item) (document : Bytes)
    → Response.finish (push (Response.new (v0, v1) status id) (encode items)) ++ document
      ≡ message v0 v1 status id (behind items document)
unfolding Response.finish Response.new message behind
finish-message v0 v1 status id items document = simp append_assoc

close-Ended :
    (version : ℕ × ℕ) (operation id : ℕ) (attributes : List Attribute) (document : Bytes)
    (result : Option (Result Scan ParseError))
    → starts_in_operation_group attributes ≡ true
    → Ended attributes document result
    → close version operation id result
      ≡ ok (record {
        version = version;
        operation = operation;
        request_id = id;
        attributes = attributes;
        document = document;
      })
unfolding close
close-Ended version operation id attributes document result first (t, done, same, rest) =
    ground arith

-- A message written by any sequence of calls that the format allows, with at most 16375 bytes of
-- attributes and at most 128 of them, starting in the operation group, is read back as it was
-- written: the same version, code, request id and attributes, and the bytes behind the end tag are
-- the document.
pub parse-finish :
    (v0 v1 status id : ℕ) (items : List Item) (document : Bytes)
    → ((v0 ≡ 1) × (v1 ≡ 1)) ⊎ ((v0 ≡ 2) × (v1 ≡ 0))
    → status < 2 ^ 16
    → 0 < id
    → id < 2 ^ 32
    → IsMessage 1 [] items
    → length (encode items) ≤ 16375
    → length (contents 1 [] items) ≤ 128
    → starts_in_operation_group (contents 1 [] items) ≡ true
    → (r : Response) × (write items (Response.new (v0, v1) status id) ≡ some r)
      × (parse (Response.finish r ++ document)
          ≡ ok (record {
            version = (v0, v1);
            operation = status;
            request_id = id;
            attributes = contents 1 [] items;
            document = document;
          }))
unfolding parse message
parse-finish v0 v1 status id items document version small pos fits m size count first = (
  push (Response.new (v0, v1) status id) (encode items),
  write-encode 1 [] items (Response.new (v0, v1) status id) m,
  rw (finish-message, known, value32, nonzero, value16)
      (close-Ended (v0, v1) status id (contents 1 [] items) document _ first ended),
)
  where
    known : not (v0 == 1 && v1 == 1 || v0 == 2 && v1 == 0) ≡ false
    known = ground arith

    value32 : be32 (id / 16777216 % 256) (id / 65536 % 256) (id / 256 % 256) (id % 256) ≡ id
    value32 = omega arith

    nonzero : (id == 0) ≡ false
    nonzero = ground arith

    value16 : be16 (status / 256 % 256) (status % 256) ≡ status
    value16 = omega arith

    rest : Bytes
    rest = behind items document

    ended :
        Ended
          (contents 1 [] items)
          document
          (scan (suc (suc (length rest))) (first_scan (1 ∷ rest)))
    ended =
        Ended-go (suc (length rest)) (first_scan (1 ∷ rest)) _ _ _ document
          (round-group (first_scan (1 ∷ rest)) 8 1 rest refl (omega arith) (inl refl) (omega arith))
          refl
          (scan-encode (suc (length rest)) items 9 1 [] [] document (ground arith) m (omega arith)
            (omega arith) (omega (arith, length-behind items document)))
