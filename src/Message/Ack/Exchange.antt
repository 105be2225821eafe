-- ===== src/Message/Ack/Exchange.antt =====
-- The acknowledgements from one end to the other: with a reason of success alone, with another
-- reason alone, and with properties.
use gofly_mqttv.Base.{
  ℕ, zero, suc, ◌+◌, ◌≤◌, ◌≡◌, ◌≢◌, ◌⊎◌, inl, inr, refl, sym, ap, ◌∙◌, false, [], ◌∷◌, ◌++◌, ◌==◌,
  length, arith, length-append, Bool-cases, ==_iff,
}
use gofly_mqttv.Message.Reason.{success}
use gofly_mqttv.Message.Wire.{put_uvarint}
use gofly_mqttv.Message.Wire.Digits.{length-put_uvarint}
use gofly_mqttv.Message.Wire.Prefixed.{pairs}
use gofly_mqttv.Message.Header.{touch}
use gofly_mqttv.Message.Ack.{Ack, count_properties, encode_other, decode_body}
use gofly_mqttv.Message.Ack.Reading.{
  reason_bytes, as_read, filled, decode_other-full, decode_other-bare, length-tail, with_id,
  decode_body-more,
}
use gofly_mqttv.Message.Ack.RoundTrip.{
  build-bare, build-full, encode_other-full, assemble, no_properties, Sent, IsSendable, IsFresh,
}

module _ (mtype b p q : ℕ) (m r : Ack) (s : IsSendable mtype b p q m) (f : IsFresh b r) where
  success_bare : count_properties m ≡ 0 → m.reason_code ≡ success → Sent mtype m r
  success_bare none e =
      let (e2, e3) = no_properties m s.paired none in
      assemble mtype b p q 2 0 m r (record r { reason_code = success; header = touch r.header }) []
        s f (omega arith) (omega arith) (build-bare m none ∙ rw e) (unfold encode_other in rw e)
        (λ h k hn hd. unfold decode_body in rw (hn, hd)) (sym e) (f.no_reason ∙ sym e2)
        (f.no_props ∙ sym e3)

  reason_bare : count_properties m ≡ 0 → (m.reason_code == success) ≡ false → Sent mtype m r
  reason_bare none e =
      let (e2, e3) = no_properties m s.paired none in
      let got = record (filled r r.reason_str []) { reason_code = m.reason_code } in
      assemble mtype b p q 3 0 m r got (m.reason_code ∷ []) s f (omega arith) (omega arith)
        (build-bare m none ∙ rw e) (unfold encode_other in refl)
        (λ h k hn hd.
          decode_body-more mtype p q k (record r { header = h }) (m.reason_code ∷ [])
            (ground (arith, hn))
          ∙ decode_other-bare mtype (with_id (record r { header = h }) p q) (k + 2) m.reason_code
              s.reason
          ∙ ap
              (λ c.
                as_read (record got { header = record h { packet_id = p ∷ q ∷ []; dirty = false } })
                  c)
              (omega arith))
        refl (f.no_reason ∙ sym e2) (sym e3)

  with_properties :
      (plen : ℕ)
      → count_properties m ≡ plen
      → 1 ≤ plen
      → plen ≤ 268435400
      → (m.reason_str ≡ []) ⊎ (m.user_property ≢ [])
      → Sent mtype m r
  with_properties plen count low high g =
      let tail = reason_bytes m.reason_str ++ pairs m.user_property in
      let got = record (filled r m.reason_str m.user_property) {
        reason_code = m.reason_code;
        property_len = plen;
      } in
      let size : length (put_uvarint plen) ≤ 4 =
        ground (arith, length-put_uvarint plen (omega arith)) in
      let len : length tail ≡ plen = length-tail m s.paired ∙ count in
      assemble mtype b p q (2 + 1 + plen + length (put_uvarint plen)) plen m r got
        (m.reason_code ∷ put_uvarint plen ++ tail) s f (omega (arith, size))
        (omega (arith, length-append (put_uvarint plen) tail, len))
        (build-full m plen count low high)
        (encode_other-full m plen (2 + 1 + plen + length (put_uvarint plen)) (omega arith) low
          (omega arith) s.short s.paired)
        (λ h k hn hd.
          decode_body-more mtype p q k (record r { header = h })
            (m.reason_code ∷ put_uvarint plen ++ tail) (ground (arith, hn))
          ∙ decode_other-full mtype (with_id (record r { header = h }) p q) (k + 2) m.reason_code
              plen m.reason_str m.user_property s.reason (omega arith) s.short s.paired g
              f.no_reason
          ∙ ap
              (λ c.
                as_read (record got { header = record h { packet_id = p ∷ q ∷ []; dirty = false } })
                  c)
              (omega (arith, len)))
        refl refl refl

-- Encoding an acknowledgement and decoding it gives the message back. The message is changed since it
-- was made, with a legal first byte, an identifier of two bytes, a reason code that its type lets
-- through, a reason string and user properties in pairs that fit their prefixes, of 268435400 bytes at
-- most in all, and a user property behind a reason string. The receiver's message has the same packet
-- type, no reason string and no user properties. Then `EncodeToBuf` writes bytes, and `Decode` succeeds,
-- uses all of them, and returns the same identifier, reason code, reason string and user properties.
pub decode-encode_to_buf :
    (mtype b p q : ℕ) (m r : Ack)
    → IsSendable mtype b p q m
    → IsFresh b r
    → (m.reason_str ≡ []) ⊎ (m.user_property ≢ [])
    → Sent mtype m r
decode-encode_to_buf mtype b p q m r s f g = by_count (count_properties m) refl
  where
    by_count : (n : ℕ) → count_properties m ≡ n → Sent mtype m r
    by_count zero e = elim (Bool-cases (m.reason_code == success)) [
      | inl h ↦ success_bare mtype b p q m r s f e ((==_iff m.reason_code success).0 h)
      | inr h ↦ reason_bare mtype b p q m r s f e h
    ]
    by_count (suc n) e =
        with_properties mtype b p q m r s f (suc n) e (omega arith) (omega (arith, e, s.small)) g
