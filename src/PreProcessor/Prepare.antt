-- ===== src/PreProcessor/Prepare.antt =====
-- One call of `prepare_match_field`, from the packet in the one buffer to the match field in the
-- other.
use mathlib.Core.List.{append_assoc, append-nil}
use net_walk.Base.{
  ℕ, zero, suc, ◌+◌, ◌≤◌, ◌<◌, ◌≡◌, refl, sym, ap, ◌∙◌, none, some, arith, dec_lt, Bytes, List, [],
  ◌∷◌, ◌++◌, ◌>>=◌, load, load_in, for_range, byte_at, length, length-append, length-drop, take,
  drop, take-drop, take_all, Returns, ℕ_discrete,
}
use net_walk.PacketBuffer.Valid
use net_walk.PacketBuffer.Read.{Seen, read_a_packet_for_preprocessing_lem}
use net_walk.MatchFieldBuffer.{MatchFieldBuffer, add_a_byte_to_the_match_field_buffer}
use net_walk.MatchFieldBuffer.Fifo.{IsFresh, contents, add_a_byte_fits, add_a_byte_overflows}
use net_walk.PreProcessor.{PreProcessor, collect_fields, prepare_match_field}
use net_walk.PreProcessor.Fields.{IsField}
use net_walk.PreProcessor.Collect.{
  collect_fields_plain, collect_fields_vlan, collect_fields_mpls, collect_fields_other,
}

-- Every packet of at least 100 bytes gets a match field.
collect_fields_lem :
    (pkt mf : Bytes)
    → 100 ≤ length pkt
    → IsField mf
    → Returns (λ out. length out ≡ 45) (collect_fields pkt mf)
collect_fields_lem pkt mf size v = by (hi 8) (hi 129) (hi 136) (lo 0) (lo 71)
  where
    hi : (k : ℕ) → Dec (byte_at pkt 25 ≡ k)
    hi k = ℕ_discrete (byte_at pkt 25) k

    lo : (k : ℕ) → Dec (byte_at pkt 26 ≡ k)
    lo k = ℕ_discrete (byte_at pkt 26) k

    by :
        Dec (byte_at pkt 25 ≡ 8)
        → Dec (byte_at pkt 25 ≡ 129)
        → Dec (byte_at pkt 25 ≡ 136)
        → Dec (byte_at pkt 26 ≡ 0)
        → Dec (byte_at pkt 26 ≡ 71)
        → Returns (λ out. length out ≡ 45) (collect_fields pkt mf)
    by (yes a) q r (yes d) t =
        let (out, run, c) = collect_fields_plain pkt mf size v a d in (out, run, c.size)
    by (no a) (yes b) r (yes d) t =
        let (out, run, c) = collect_fields_vlan pkt mf size v b d in (out, run, c.size)
    by (no a) (no b) (yes c) (yes d) t =
        let (out, run, w) =
          collect_fields_other pkt mf size v (λ e. a e.0) (λ e. b e.0) (λ e. omega (arith, e.1)) in
        (out, run, w.size)
    by (no a) (no b) (no c) (yes d) t =
        let (out, run, w) =
          collect_fields_other pkt mf size v (λ e. a e.0) (λ e. b e.0) (λ e. c e.0) in
        (out, run, w.size)
    by p q (yes c) (no d) (yes x) =
        let (out, run, w) = collect_fields_mpls pkt mf size v c x in (out, run, w.size)
    by p q (no c) (no d) t =
        let (out, run, w) =
          collect_fields_other pkt mf size v (λ e. d e.1) (λ e. d e.1) (λ e. c e.0) in
        (out, run, w.size)
    by p q (yes c) (no d) (no x) =
        let (out, run, w) =
          collect_fields_other pkt mf size v (λ e. d e.1) (λ e. d e.1) (λ e. x e.1) in
        (out, run, w.size)

-- The bytes that the last loop has added to the match field buffer.
Filed : MatchFieldBuffer → Bytes → MatchFieldBuffer → Type 0
Filed mfb xs mfb' =
    IsFresh mfb'
    × (contents mfb' ≡ contents mfb ++ xs)
    × (mfb'.match_field_buffer_tail ≡ mfb.match_field_buffer_tail + length xs)

add_field :
    (field : Bytes) (n i : ℕ) (mfb : MatchFieldBuffer)
    → IsFresh mfb
    → mfb.match_field_buffer_tail + n ≤ 900
    → i + n ≤ length field
    → Returns (Filed mfb (take n (drop i field))) (
        for_range n i
          (λ i mf. do byte ← load field i; add_a_byte_to_the_match_field_buffer mf byte)
          mfb)
unfolding for_range Filed
add_field field zero i mfb f room fits =
    (mfb, refl, (f, sym (append-nil (contents mfb)), omega arith))
add_field field (suc n) i mfb f room fits =
    let (mfb₁, step, (f₁, q₁, t₁)) = add_a_byte_fits mfb (byte_at field i) f (omega arith) in
    let (mfb₂, rest, (f₂, q₂, t₂)) =
      add_field field n (i + 1) mfb₁ f₁ (omega arith) (omega arith) in
    (
      mfb₂,
      rw (load_in field i (omega arith), step) rest,
      rw (take-drop field i n (omega arith)) (
        f₂,
        q₂
            ∙ (ap (λ q. q ++ take n (drop (i + 1) field)) q₁
                ∙ append_assoc (contents mfb) (byte_at field i ∷ []) (take n (drop (i + 1) field))),
        omega arith,
      ),
    )

add_field_overflows :
    (field : Bytes) (n i : ℕ) (mfb : MatchFieldBuffer)
    → IsFresh mfb
    → 900 < mfb.match_field_buffer_tail + n
    → i + n ≤ length field
    → for_range n i
        (λ i mf. do byte ← load field i; add_a_byte_to_the_match_field_buffer mf byte)
        mfb
      ≡ none
unfolding for_range
add_field_overflows field zero i mfb f over fits = absurd (omega (arith, f.tail_in))
add_field_overflows field (suc n) i mfb f over fits =
    elim (dec_lt mfb.match_field_buffer_tail 900) [
      | yes p ↦
          let (mfb₁, step, (f₁, q₁, t₁)) = add_a_byte_fits mfb (byte_at field i) f p in
          rw (load_in field i (omega arith), step)
            (add_field_overflows field n (i + 1) mfb₁ f₁ (omega arith) (omega arith))
      | no p ↦ rw (
        load_in field i (omega arith),
        add_a_byte_overflows mfb (byte_at field i) f (omega (arith, f.tail_in)),
      )
    ]

-- What a call leaves: the packet buffer with one more packet seen, and the match field of the packet
-- behind the queue of the match field buffer.
pub record IsPrepared (pp : PreProcessor) (seen : ℕ) (packet match_field : Bytes)
    (pp' : PreProcessor) : Type 0 where
  pub field : Bytes
  pub collected : collect_fields packet match_field ≡ some field
  pub filed : contents pp'.mf ≡ contents pp.mf ++ field
  pub fresh : IsFresh pp'.mf
  pub tail : pp'.mf.match_field_buffer_tail ≡ pp.mf.match_field_buffer_tail + 45
  pub packets : Valid.IsValid pp'.pb
  pub queue : Valid.contents pp'.pb ≡ Valid.contents pp.pb
  pub read_on : Seen pp'.pb seen

-- The buffer of a packet that was read, with what was in the array behind it.
abbrev pub read_into : ℕ → List ℕ → Bytes → Bytes
read_into n body pkt = (n ∷ body) ++ drop (suc n) pkt

length-read_into :
    (n : ℕ) (body : List ℕ) (pkt : Bytes)
    → length body ≡ n
    → n < 100
    → length pkt ≡ 100
    → length (read_into n body pkt) ≡ 100
length-read_into n body pkt e h size =
    omega (arith, length-append body (drop (suc n) pkt), length-drop (suc n) pkt)

module _ (pp : PreProcessor) (match_field pkt : Bytes) (n : ℕ) (pre body rest : List ℕ)
    (v : Valid.IsValid pp.pb) (e : Valid.contents pp.pb ≡ pre ++ ((n ∷ body) ++ rest))
    (size : length body ≡ n) (short : n < 100) (room : length pkt ≡ 100)
    (seen : Seen pp.pb (length pre)) (mf : IsField match_field) (f : IsFresh pp.mf) where
  -- If the packet buffer is valid and the bytes that are not yet seen start with a whole packet
  -- whose length byte is below 100, the allocated arrays have 45 and 100 bytes, and the match
  -- field buffer was never closed and has taken at most 855 bytes, then `prepare_match_field` ends
  -- without a fault: the match field that `collect_fields` makes of the packet is behind the queue
  -- of the match field buffer, the packet is seen, and the queue of packets is as before.
  pub prepare_match_field_lem :
      pp.mf.match_field_buffer_tail ≤ 855
      → Returns
          (IsPrepared pp (length pre + suc n) (read_into n body pkt) match_field)
          (prepare_match_field pp match_field pkt)
  unfolding prepare_match_field Filed
  prepare_match_field_lem h =
      let (pb', run₁, v', c, s, full) =
        read_a_packet_for_preprocessing_lem pp.pb n pre body rest pkt v e size (omega arith) seen in
      let (field, run₂, width) =
        collect_fields_lem (read_into n body pkt) match_field
          (omega (arith, length-read_into n body pkt size short room)) mf in
      let (mf', run₃, (f', q, t)) = add_field field 45 0 pp.mf f (omega arith) (omega arith) in
      let all = take_all 45 field width in
      (
        record { pb = pb'; mf = mf' },
        rw (run₁, run₂, run₃) refl,
        record {
          field = field;
          collected = run₂;
          filed = rw all at q;
          fresh = f';
          tail = omega (arith, ap length all);
          packets = v';
          queue = c;
          read_on = s;
        },
      )

  -- If the packet buffer is valid and the bytes that are not yet seen start with a whole packet
  -- whose length byte is below 100, the allocated arrays have 45 and 100 bytes, and the match
  -- field buffer was never closed and has taken more than 855 bytes, then `prepare_match_field`
  -- writes outside the buffer's array, however many match fields were read from it.
  pub prepare_match_field_overflows :
      855 < pp.mf.match_field_buffer_tail → prepare_match_field pp match_field pkt ≡ none
  unfolding prepare_match_field
  prepare_match_field_overflows h =
      let (pb', run₁, v', c, s, full) =
        read_a_packet_for_preprocessing_lem pp.pb n pre body rest pkt v e size (omega arith) seen in
      let (field, run₂, width) =
        collect_fields_lem (read_into n body pkt) match_field
          (omega (arith, length-read_into n body pkt size short room)) mf in
      rw (run₁, run₂, add_field_overflows field 45 0 pp.mf f (omega arith) (omega arith)) refl
