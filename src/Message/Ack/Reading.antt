-- ===== src/Message/Ack/Reading.antt =====
-- What the decoder reads behind the packet identifier of an acknowledgement.
use gofly_mqttv.Base.{
  ℕ, suc, ◌+◌, ◌^◌, ◌≤◌, ◌<◌, ◌≡◌, ◌≢◌, ◌⊎◌, inl, inr, refl, ap, ap₂, ◌∙◌, true, false, List, [],
  ◌∷◌, ◌++◌, ltb, ◌==◌, if◌then◌else◌, length, drop, arith, length-append, drop-append_left,
}
use gofly_mqttv.Message.Reason.{success, reason_string}
use gofly_mqttv.Message.Wire.{ok, ◌>>=◌, Read, lb_decode, put_uvarint}
use gofly_mqttv.Message.Wire.Digits.{length-put_uvarint}
use gofly_mqttv.Message.Wire.Varint.{lb_decode-put_uvarint}
use gofly_mqttv.Message.Wire.Prefixed.{
  lp, write_lp-fits, read_lp-lp, Paired, pairs, length-pairs, decode_user_property-pairs, drop-lp,
}
use gofly_mqttv.Message.Ack.{
  Ack, valid_reason, count_properties, write_reason, finish, after_reason, read_reason,
  decode_other, decode_body,
}

abbrev pub reason_bytes : List ℕ → List ℕ
reason_bytes [] = []
reason_bytes (c ∷ s) = reason_string ∷ lp (c ∷ s)

pub write_reason-fits : (s : List ℕ) → length s ≤ 65535 → write_reason s ≡ ok (reason_bytes s)
unfolding write_reason
write_reason-fits [] h = refl
write_reason-fits (c ∷ s) h = rw (write_lp-fits (c ∷ s) h)

-- The parts of a message that its packet carries.
abbrev pub filled : Ack → List ℕ → List (List ℕ) → Ack
filled m s props = record m {
  reason_str = s;
  user_property = props;
  header = record m.header { dirty = false };
}

finish-pairs :
    (m : Ack) (total : ℕ) (props : List (List ℕ))
    → Paired props
    → finish m total (pairs props) ≡ ok (filled m m.reason_str props, total + length (pairs props))
unfolding finish
finish-pairs m total props h = rw (decode_user_property-pairs props h)

read_reason-absent :
    (m : Ack) (total : ℕ) (props : List (List ℕ))
    → Paired props
    → read_reason m total (pairs props)
      ≡ ok (filled m m.reason_str props, total + length (pairs props))
unfolding read_reason finish
read_reason-absent m total [] h = finish-pairs m total [] h
read_reason-absent m total (k ∷ []) h = absurd h
read_reason-absent m total (k ∷ v ∷ props) h = finish-pairs m total (k ∷ v ∷ props) h

after_reason-pairs :
    (m : Ack) (total : ℕ) (props : List (List ℕ))
    → Paired props
    → props ≢ []
    → after_reason m total (pairs props)
      ≡ ok (filled m m.reason_str props, total + length (pairs props))
unfolding after_reason finish
after_reason-pairs m total [] h g = absurd (g refl)
after_reason-pairs m total (k ∷ []) h g = absurd h
after_reason-pairs m total (k ∷ v ∷ props) h g = finish-pairs m total (k ∷ v ∷ props) h

abbrev pub as_read : Ack → ℕ → Read Ack
as_read m n = ok (m, n)

read_reason-written :
    (m : Ack) (total : ℕ) (s : List ℕ) (props : List (List ℕ))
    → length s ≤ 65535
    → Paired props
    → (s ≡ []) ⊎ (props ≢ [])
    → m.reason_str ≡ []
    → read_reason m total (reason_bytes s ++ pairs props)
      ≡ as_read (filled m s props) (total + length (reason_bytes s ++ pairs props))
unfolding read_reason
read_reason-written m total [] props hs h g e = read_reason-absent m total props h ∙ rw e
read_reason-written m total (c ∷ s) props hs h (inl g) e = cc
read_reason-written m total (c ∷ s) props hs h (inr g) e =
    let m' = record m { reason_str = c ∷ s } in
    let count : suc total + (2 + length (c ∷ s)) + length (pairs props)
        ≡ total + length (reason_bytes (c ∷ s) ++ pairs props) =
      omega (arith, length-append (reason_bytes (c ∷ s)) (pairs props)) in
    rw (read_lp-lp (c ∷ s) (pairs props) hs, drop-lp (c ∷ s) (pairs props))
      (after_reason-pairs m' (suc total + (2 + length (c ∷ s))) props h g
        ∙ ap (λ n. as_read (filled m (c ∷ s) props) n) count)

pub decode_other-more :
    (mtype : ℕ) (m : Ack) (total code : ℕ) (src : List ℕ)
    → valid_reason mtype code ≡ true
    → 1 ≤ length src
    → decode_other mtype m total (code ∷ src) ≡ (
        lb_decode src >>= λ n.
        read_reason
          (record m { reason_code = code; property_len = n.0 })
          (suc total + n.1)
          (drop n.1 src))
unfolding decode_other
decode_other-more mtype m total code [] hv h = absurd (omega arith)
decode_other-more mtype m total code (c ∷ src) hv h = rw hv

-- What `decodeOther` reads of a reason code, the length of the properties and the properties.
pub decode_other-full :
    (mtype : ℕ) (m : Ack) (total code plen : ℕ) (s : List ℕ) (props : List (List ℕ))
    → valid_reason mtype code ≡ true
    → plen < 2 ^ 28
    → length s ≤ 65535
    → Paired props
    → (s ≡ []) ⊎ (props ≢ [])
    → m.reason_str ≡ []
    → decode_other mtype m total (code ∷ put_uvarint plen ++ (reason_bytes s ++ pairs props))
      ≡ as_read
          (filled (record m { reason_code = code; property_len = plen }) s props)
          (suc total + length (put_uvarint plen) + length (reason_bytes s ++ pairs props))
decode_other-full mtype m total code plen s props hv hp hs h g e =
    let tail = reason_bytes s ++ pairs props in
    let some_bytes : 1 ≤ length (put_uvarint plen ++ tail) =
      ground (arith, length-append (put_uvarint plen) tail, length-put_uvarint plen hp) in
    decode_other-more mtype m total code (put_uvarint plen ++ tail) hv some_bytes
    ∙ rw (lb_decode-put_uvarint plen tail hp, drop-append_left (put_uvarint plen) tail)
        (read_reason-written (record m { reason_code = code; property_len = plen })
          (suc total + length (put_uvarint plen)) s props hs h g e)

pub decode_other-bare :
    (mtype : ℕ) (m : Ack) (total code : ℕ)
    → valid_reason mtype code ≡ true
    → decode_other mtype m total (code ∷ [])
      ≡ as_read (filled (record m { reason_code = code }) m.reason_str []) (suc total + 0)
unfolding decode_other
decode_other-bare mtype m total code hv =
    rw (hv, read_reason-absent (record m { reason_code = code }) (suc total) [] _)

pub length-tail :
    (m : Ack)
    → Paired m.user_property
    → length (reason_bytes m.reason_str ++ pairs m.user_property) ≡ count_properties m
unfolding count_properties
length-tail m h =
    length-append (reason_bytes m.reason_str) (pairs m.user_property)
    ∙ ap₂ (λ x y. x + y) (count m.reason_str) (length-pairs m.user_property h)
  where
    count :
        (s : List ℕ) → length (reason_bytes s) ≡ (if ltb 0 (length s) then 1 + 2 + length s else 0)
    count [] = refl
    count (c ∷ s) = ground arith

abbrev pub with_id : Ack → ℕ → ℕ → Ack
with_id m p q = record m { header = record m.header { packet_id = p ∷ q ∷ [] } }

pub decode_body-more :
    (mtype p q k : ℕ) (m : Ack) (src : List ℕ)
    → (m.header.remlen == 2) ≡ false
    → decode_body mtype m k (p ∷ q ∷ src) ≡ decode_other mtype (with_id m p q) (k + 2) src
unfolding decode_body
decode_body-more mtype p q k m src h =
    ap
      (λ c.
        if c
        then as_read (record (with_id m p q) { reason_code = success }) (k + 2)
        else decode_other mtype (with_id m p q) (k + 2) src)
      h
