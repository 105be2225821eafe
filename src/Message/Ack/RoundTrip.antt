-- ===== src/Message/Ack/RoundTrip.antt =====
-- An acknowledgement that is written is read back.
use gofly_mqttv.Base.{
  ℕ, ◌+◌, ◌/◌, ◌%◌, ◌^◌, ◌≤◌, ◌<◌, ◌≡◌, inl, inr, refl, sym, ap, ◌∙◌, true, false, List, [], ◌∷◌,
  ◌++◌, ltb, ◌==◌, if◌then◌else◌, length, arith, length-append, Bool-cases,
}
use gofly_mqttv.Message.Reason.{success}
use gofly_mqttv.Message.Wire.{ok, ◌>>=◌, build_user_property_len, put_uvarint}
use gofly_mqttv.Message.Wire.Digits.{lb_encode-put_uvarint, length-put_uvarint}
use gofly_mqttv.Message.Wire.Prefixed.{Paired, pairs, write_user_property-pairs, drop_at}
use gofly_mqttv.Message.Header.{Header, touch, kind, set_remaining_length}
use gofly_mqttv.Message.Header.RoundTrip.{IsFirst, received, encode_header-exact, header-round_trip}
use gofly_mqttv.Message.Ack.{
  Ack, valid_reason, count_properties, with_length, build, write_properties, write_id, encode_other,
  encode_built, encode_to_buf, decode_body, decode,
}
use gofly_mqttv.Message.Ack.Reading.{reason_bytes, write_reason-fits, as_read}

-- The lengths that `build` sets.
abbrev pub built : Ack → ℕ → ℕ → Ack
built m plen n = record m {
  property_len = plen;
  header = record m.header { remlen = n; dirty = true };
}

set_remaining_length-fits :
    (n : ℕ) (h : Header)
    → n ≤ 268435455
    → set_remaining_length n h ≡ ok (record h { remlen = n; dirty = true })
unfolding set_remaining_length
set_remaining_length-fits n h g = ground arith

with_length-fits :
    (m : Ack) (n : ℕ)
    → n ≤ 268435455
    → with_length m n ≡ record m { header = record m.header { remlen = n; dirty = true } }
unfolding with_length
with_length-fits m n g =
    let e : n % 2 ^ 32 ≡ n = omega arith in rw (e, set_remaining_length-fits n m.header g)

pub build-bare :
    (m : Ack)
    → count_properties m ≡ 0
    → build m ≡ ok (built m 0 (if m.reason_code == success then 2 else 2 + 1))
unfolding build
build-bare m h = elim (Bool-cases (m.reason_code == success)) [
  | inl e ↦ rw (h, e) (rw (with_length-fits (record m { property_len = 0 }) 2 (omega arith)))
  | inr e ↦ rw (h, e) (rw (with_length-fits (record m { property_len = 0 }) 3 (omega arith)))
]

pub build-full :
    (m : Ack) (plen : ℕ)
    → count_properties m ≡ plen
    → 1 ≤ plen
    → plen ≤ 268435400
    → build m ≡ ok (built m plen (2 + 1 + plen + length (put_uvarint plen)))
unfolding build
build-full m plen h low high =
    let e : plen % 2 ^ 32 ≡ plen = omega arith in
    let z : (plen == 0) ≡ false = ground arith in
    let len : length (put_uvarint plen) ≤ 4 =
      ground (arith, length-put_uvarint plen (omega arith)) in
    rw (h, e, z, lb_encode-put_uvarint plen (omega arith))
      (rw (
        with_length-fits (record m { property_len = plen })
          (2 + 1 + plen + length (put_uvarint plen)) (omega (arith, len))))

encode_built-exact :
    (m : Ack) (b n plen : ℕ) (other : List ℕ)
    → m.header.mtypeflags ≡ b ∷ []
    → IsFirst b
    → n ≤ 268435455
    → encode_other (built m plen n) ≡ ok other
    → encode_built (built m plen n)
      ≡ ok (b ∷ put_uvarint n ++ (write_id m.header.packet_id ++ other))
unfolding encode_built
encode_built-exact m b n plen other hf first hn ho =
    let h = record m.header { remlen = n; dirty = true } in
    rw (set_remaining_length-fits n h hn, encode_header-exact h b hf first hn, ho)

pub encode_other-full :
    (m : Ack) (plen n : ℕ)
    → 3 ≤ n
    → 1 ≤ plen
    → plen < 2 ^ 28
    → length m.reason_str ≤ 65535
    → Paired m.user_property
    → encode_other (built m plen n)
      ≡ ok
          (m.reason_code ∷ put_uvarint plen ++ (reason_bytes m.reason_str ++ pairs m.user_property))
unfolding encode_other
encode_other-full m plen n hn low high hs hu =
    let two : (n == 2) ≡ false = ground arith in
    let pos : ltb 0 plen ≡ true = ground arith in
    rw (
      two,
      pos,
      write_properties,
      lb_encode-put_uvarint plen high,
      write_reason-fits m.reason_str hs,
      write_user_property-pairs m.user_property hu,
    )

-- Reading, up to the packet identifier.
pub decode-start :
    (mtype b p q n : ℕ) (r : Ack) (other : List ℕ)
    → IsFirst b
    → kind (touch r.header) ≡ b / 16
    → n ≤ 268435455
    → n ≡ 2 + length other
    → decode mtype r (b ∷ put_uvarint n ++ (p ∷ q ∷ other))
      ≡ decode_body mtype
          (record r { header = received r.header b n (b ∷ put_uvarint n ++ (p ∷ q ∷ other)) })
          (1 + length (put_uvarint n))
          (p ∷ q ∷ other)
unfolding decode
decode-start mtype b p q n r other first hk hn len =
    let h = record r.header { mtypeflags = b ∷ []; remlen = n } in
    let (_, _, e) =
      header-round_trip h r.header b (p ∷ q ∷ other) refl first hn (inr (omega arith)) hk
        (omega arith) in
    rw (e, drop_at (1 + length (put_uvarint n)) (b ∷ put_uvarint n) (p ∷ q ∷ other) (omega arith))

-- What an encoded message is for its receiver.
pub record Sent (mtype : ℕ) (m r : Ack) : Type 0 where
  pub bytes : List ℕ
  pub got : Ack
  pub wrote : encode_to_buf m ≡ ok bytes
  pub read : decode mtype r bytes ≡ as_read got (length bytes)
  pub same_id : got.header.packet_id ≡ m.header.packet_id
  pub same_reason : got.reason_code ≡ m.reason_code
  pub same_str : got.reason_str ≡ m.reason_str
  pub same_props : got.user_property ≡ m.user_property

-- A changed message with a legal first byte, an identifier, a reason code of its type, and properties
-- that fit.
pub record IsSendable (mtype b p q : ℕ) (m : Ack) : Type 0 where
  pub changed : m.header.dirty ≡ true
  pub first_byte : m.header.mtypeflags ≡ b ∷ []
  pub legal : IsFirst b
  pub identifier : m.header.packet_id ≡ p ∷ q ∷ []
  pub reason : valid_reason mtype m.reason_code ≡ true
  pub short : length m.reason_str ≤ 65535
  pub paired : Paired m.user_property
  pub small : count_properties m ≤ 268435400

-- A message that has the packet type and no properties yet, as `NewPubackMessage` and its like make.
pub record IsFresh (b : ℕ) (r : Ack) : Type 0 where
  pub typed : kind (touch r.header) ≡ b / 16
  pub no_reason : r.reason_str ≡ []
  pub no_props : r.user_property ≡ []

encode-changed : (m : Ack) → m.header.dirty ≡ true → encode_to_buf m ≡ (build m >>= encode_built)
unfolding encode_to_buf
encode-changed m h = ap (λ c. if c then build m >>= encode_built else ok m.header.dbuf) h

pub encode-exact :
    (mtype b p q n plen : ℕ) (m : Ack) (other : List ℕ)
    → IsSendable mtype b p q m
    → n ≤ 268435455
    → build m ≡ ok (built m plen n)
    → encode_other (built m plen n) ≡ ok other
    → encode_to_buf m ≡ ok (b ∷ put_uvarint n ++ (p ∷ q ∷ other))
encode-exact mtype b p q n plen m other s hn hb ho =
    let e = encode_built-exact m b n plen other s.first_byte s.legal hn ho in
    encode-changed m s.changed
    ∙ ap (λ x. x >>= encode_built) hb
    ∙ e
    ∙ ap (λ id. ok (b ∷ put_uvarint n ++ (write_id id ++ other))) s.identifier

no_parts :
    (s : List ℕ) (props : List (List ℕ))
    → Paired props
    → (if ltb 0 (length s) then 1 + 2 + length s else 0) + build_user_property_len props ≡ 0
    → (s ≡ []) × (props ≡ [])
unfolding build_user_property_len
no_parts [] [] h e = (refl, refl)
no_parts [] (k ∷ []) h e = absurd h
no_parts [] (k ∷ v ∷ props) h e = absurd (omega arith)
no_parts (c ∷ s) props h e = absurd (ground arith)

-- A message whose three parts behind the fixed header are written and read.
pub assemble :
    (mtype b p q n plen : ℕ) (m r got : Ack) (other : List ℕ)
    → IsSendable mtype b p q m
    → IsFresh b r
    → n ≤ 268435455
    → n ≡ 2 + length other
    → build m ≡ ok (built m plen n)
    → encode_other (built m plen n) ≡ ok other
    → ((h : Header) (k : ℕ)
        → h.remlen ≡ n
        → h.dirty ≡ (touch r.header).dirty
        → decode_body mtype (record r { header = h }) k (p ∷ q ∷ other)
          ≡ as_read
              (record got {
                header = record h { packet_id = p ∷ q ∷ []; dirty = got.header.dirty };
              })
              (k + n))
    → got.reason_code ≡ m.reason_code
    → got.reason_str ≡ m.reason_str
    → got.user_property ≡ m.user_property
    → Sent mtype m r
assemble mtype b p q n plen m r got other s f hn len hb ho hd e1 e2 e3 =
    let h = received r.header b n (b ∷ put_uvarint n ++ (p ∷ q ∷ other)) in
    record {
      bytes = b ∷ put_uvarint n ++ (p ∷ q ∷ other);
      got = record got { header = record h { packet_id = p ∷ q ∷ []; dirty = got.header.dirty } };
      wrote = encode-exact mtype b p q n plen m other s hn hb ho;
      read =
          decode-start mtype b p q n r other s.legal f.typed hn len
          ∙ hd h (1 + length (put_uvarint n)) refl refl
          ∙ ap
              (λ c.
                as_read
                  (record got {
                    header = record h { packet_id = p ∷ q ∷ []; dirty = got.header.dirty };
                  })
                  c)
              (omega (arith, length-append (put_uvarint n) (p ∷ q ∷ other)));
      same_id = sym s.identifier;
      same_reason = e1;
      same_str = e2;
      same_props = e3;
    }

pub no_properties :
    (m : Ack)
    → Paired m.user_property
    → count_properties m ≡ 0
    → (m.reason_str ≡ []) × (m.user_property ≡ [])
unfolding count_properties
no_properties m h e = no_parts m.reason_str m.user_property h e
