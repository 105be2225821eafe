-- ===== src/Message/Ack/Panic.antt =====
-- An acknowledgement with a reason string and no user property behind it is written, and its receiver
-- reads past the end of the packet.
use gofly_mqttv.Base.{
  ℕ, zero, suc, ◌+◌, ◌^◌, ◌≤◌, ◌<◌, ◌≡◌, ◌≢◌, refl, ◌∙◌, true, List, [], ◌∷◌, ◌++◌, length, arith,
  length-append, drop-append_left,
}
use gofly_mqttv.Message.Wire.{panic, ok, put_uvarint}
use gofly_mqttv.Message.Wire.Digits.{length-put_uvarint}
use gofly_mqttv.Message.Wire.Varint.{lb_decode-put_uvarint}
use gofly_mqttv.Message.Wire.Prefixed.{read_lp-lp, pairs, drop-lp}
use gofly_mqttv.Message.Header.RoundTrip.{received}
use gofly_mqttv.Message.Ack.{
  Ack, valid_reason, count_properties, encode_to_buf, read_reason, decode_other, decode,
}
use gofly_mqttv.Message.Ack.Reading.{
  reason_bytes, length-tail, with_id, decode_body-more, decode_other-more,
}
use gofly_mqttv.Message.Ack.RoundTrip.{
  build-full, encode_other-full, encode-exact, decode-start, no_properties, IsSendable, IsFresh,
}

read_reason-panics :
    (m : Ack) (total : ℕ) (s : List ℕ) (props : List (List ℕ))
    → length s ≤ 65535
    → s ≢ []
    → props ≡ []
    → read_reason m total (reason_bytes s ++ pairs props) ≡ panic
unfolding read_reason
read_reason-panics m total [] props hs h e = absurd (h refl)
read_reason-panics m total (c ∷ s) [] hs h e = rw (read_lp-lp (c ∷ s) [] hs, drop-lp (c ∷ s) [])
read_reason-panics m total (c ∷ s) (k ∷ props) hs h e = cc

decode_other-panics :
    (mtype : ℕ) (m : Ack) (total code plen : ℕ) (s : List ℕ) (props : List (List ℕ))
    → valid_reason mtype code ≡ true
    → plen < 2 ^ 28
    → length s ≤ 65535
    → s ≢ []
    → props ≡ []
    → decode_other mtype m total (code ∷ put_uvarint plen ++ (reason_bytes s ++ pairs props))
      ≡ panic
decode_other-panics mtype m total code plen s props hv hp hs h e =
    let tail = reason_bytes s ++ pairs props in
    let some_bytes : 1 ≤ length (put_uvarint plen ++ tail) =
      ground (arith, length-append (put_uvarint plen) tail, length-put_uvarint plen hp) in
    decode_other-more mtype m total code (put_uvarint plen ++ tail) hv some_bytes
    ∙ rw (lb_decode-put_uvarint plen tail hp, drop-append_left (put_uvarint plen) tail)
        (read_reason-panics (record m { reason_code = code; property_len = plen })
          (suc total + length (put_uvarint plen)) s props hs h e)

-- The bytes that a sender writes, on which the receiver panics.
pub record Crash (mtype : ℕ) (m r : Ack) : Type 0 where
  pub bytes : List ℕ
  pub wrote : encode_to_buf m ≡ ok bytes
  pub panics : decode mtype r bytes ≡ panic

crash :
    (mtype b p q : ℕ) (plen : ℕ) (m r : Ack)
    → IsSendable mtype b p q m
    → IsFresh b r
    → m.reason_str ≢ []
    → m.user_property ≡ []
    → count_properties m ≡ plen
    → 1 ≤ plen
    → Crash mtype m r
crash mtype b p q plen m r h f es eu count low =
    let tail = reason_bytes m.reason_str ++ pairs m.user_property in
    let n = 2 + 1 + plen + length (put_uvarint plen) in
    let high : plen ≤ 268435400 = omega (arith, count, h.small) in
    let size : length (put_uvarint plen) ≤ 4 =
      ground (arith, length-put_uvarint plen (omega arith)) in
    let len : length tail ≡ plen = length-tail m h.paired ∙ count in
    let other = m.reason_code ∷ put_uvarint plen ++ tail in
    let hd = received r.header b n (b ∷ put_uvarint n ++ (p ∷ q ∷ other)) in
    let lens = length-append (put_uvarint plen) tail in
    record {
      bytes = b ∷ put_uvarint n ++ (p ∷ q ∷ other);
      wrote =
          encode-exact mtype b p q n plen m other h (omega (arith, size))
            (build-full m plen count low high)
            (encode_other-full m plen n (omega arith) low (omega arith) h.short h.paired);
      panics =
          decode-start mtype b p q n r other h.legal f.typed (omega (arith, size))
            (omega (arith, lens, len))
          ∙ decode_body-more mtype p q (1 + length (put_uvarint n)) (record r { header = hd }) other
              (ground arith)
          ∙ decode_other-panics mtype (with_id (record r { header = hd }) p q)
              (1 + length (put_uvarint n) + 2) m.reason_code plen m.reason_str m.user_property
              h.reason (omega arith) h.short es eu;
    }

-- The defect: an acknowledgement that meets the conditions of the round trip but has a reason string and
-- no user property is encoded, and `Decode` of these bytes indexes past their end.
pub decode-panics :
    (mtype b p q : ℕ) (m r : Ack)
    → IsSendable mtype b p q m
    → IsFresh b r
    → m.reason_str ≢ []
    → m.user_property ≡ []
    → Crash mtype m r
decode-panics mtype b p q m r h f hs hu = by_count (count_properties m) refl
  where
    by_count : (n : ℕ) → count_properties m ≡ n → Crash mtype m r
    by_count zero e = absurd (hs (no_properties m h.paired e).0)
    by_count (suc n) e = crash mtype b p q (suc n) m r h f hs hu e (omega arith)
