-- ===== src/Tests/Tables.antt =====
-- Match fields, the tables of the flow unit and its cache at concrete inputs.
use net_walk.Base.{
  ℕ, zero, suc, ◌≤◌, ◌<◌, ◌≡◌, refl, none, some, arith, Bytes, [], ◌∷◌, ◌>>=◌, replicate, set, leb,
  get_elem?, if◌then◌else◌, replicate-AllBytes, Returns,
}
use net_walk.Bits.Laws.{bit_at}
use net_walk.Bits.Copy.{Copied}
use net_walk.ModifyField.{extract_field, replace_field}
use net_walk.ModifyField.RoundTrip.{
  extract_field_lem, replace_field_lem, extract_field-replace_field,
}
use net_walk.PreProcessor.{collect_fields}
use net_walk.PreProcessor.Fields.{IsField, Ones, FromPacket}
use net_walk.PreProcessor.Collect.{
  Collected, collect_fields_plain, collect_fields_vlan, collect_fields_mpls, collect_fields_other,
}
use net_walk.FlowUnit.{TcamUnit, write_new_flow_entry}
use net_walk.FlowUnit.Write.{EntryWritten, write_new_flow_entry_lem}
use net_walk.FlowUnit.Search.{Found, search_tcam}
use net_walk.FlowUnit.Search.Match.{IsValid}
use net_walk.FlowUnit.Search.Refine.{groups, mask_of}
use net_walk.FlowUnit.Search.Best.{Searched, search_tcam_lem}
use net_walk.FlowUnit.Cache.{FlowCache, remember, search_cache}
use net_walk.FlowUnit.Cache.Unfilled.{Unfilled, remember-Unfilled, search_cache_faults}

-- A packet with the two bytes of an ether type, and a match field.
abbrev packet : ℕ → ℕ → Bytes
packet hi lo = set (set (replicate 100 0) 25 hi) 26 lo

abbrev blank : Bytes
blank = replicate 45 0

blank-IsField : IsField blank
blank-IsField = record { size = refl; bytes = replicate-AllBytes 45 0 (omega arith) }

collect_fields_plain_example :
    Returns
      (Collected (λ out. Ones out 208 38) (packet 8 0) 246 246 blank)
      (collect_fields (packet 8 0) blank)
collect_fields_plain_example =
    collect_fields_plain (packet 8 0) blank (omega arith) blank-IsField refl refl

collect_fields_vlan_example :
    Returns
      (Collected
        (λ out.
          FromPacket (packet 129 0) 236 out 208 12
          × FromPacket (packet 129 0) 232 out 220 3
          × Ones out 223 23)
        (packet 129 0)
        267
        246
        blank)
      (collect_fields (packet 129 0) blank)
collect_fields_vlan_example =
    collect_fields_vlan (packet 129 0) blank (omega arith) blank-IsField refl refl

collect_fields_mpls_example :
    Returns
      (Collected
        (λ out. Ones out 208 15 × FromPacket (packet 136 71) 215 out 223 23)
        (packet 136 71)
        255
        246
        blank)
      (collect_fields (packet 136 71) blank)
collect_fields_mpls_example =
    collect_fields_mpls (packet 136 71) blank (omega arith) blank-IsField refl refl

collect_fields_other_example :
    Returns
      (Collected (λ _. Unit {0}) (packet 8 6) 224 208 blank)
      (collect_fields (packet 8 6) blank)
collect_fields_other_example =
    collect_fields_other (packet 8 6) blank (omega arith) blank-IsField (λ e. omega (arith, e.1))
      (λ e. omega (arith, e.0)) (λ e. omega (arith, e.0))

-- A table of two entries of 31 bytes, and a field of four bits in the second one.
abbrev table : Bytes
table = replicate 62 255

abbrev value : Bytes
value = 160 ∷ []

extract_field_lem_example : Returns (Copied table 251 value 0 4) (extract_field table 1 3 6 value)
extract_field_lem_example =
    extract_field_lem table 1 3 6 value (omega arith) (omega arith) (omega arith) (omega arith, tt)

replace_field_lem_example : Returns (Copied value 0 table 251 4) (replace_field table 1 3 6 value)
replace_field_lem_example =
    replace_field_lem table 1 3 6 value (omega arith) (omega arith) (omega arith)
      (replicate-AllBytes 62 255 (omega arith))

extract_field-replace_field_example :
    Returns
      (λ out. (q : ℕ) → bit_at out q ≡ (if leb q 3 then bit_at value q else bit_at (0 ∷ []) q))
      (replace_field table 1 3 6 value >>= λ t. extract_field t 1 3 6 (0 ∷ []))
extract_field-replace_field_example =
    extract_field-replace_field table 1 3 6 value (0 ∷ []) (replicate-AllBytes 62 255 (omega arith))
      (omega arith, tt) (omega arith) (omega arith) (omega arith) (omega arith)

-- Two entries, each alone in its group, under masks without a bit; the second has the priority 5.
abbrev unit : TcamUnit
unit = record {
  flow_table = set (set (replicate 960 0) 92 8) 93 5;
  mask_table = replicate 900 0;
  action_table = replicate 620 0;
  flag_table = replicate 40 0;
  flow_tail = 2;
  mask_tail = 2;
}

unit-IsValid : IsValid unit
unit-IsValid = record { flows = refl; masks = refl; flow_in = omega arith; mask_in = omega arith }

unit_grouped : (e : ℕ) → e < 2 → mask_of unit blank e < 2
unfolding groups bit_at
unit_grouped zero h = omega arith
unit_grouped (suc zero) h = omega arith
unit_grouped (suc (suc e)) h = absurd (omega arith)

search_tcam_lem_example :
    (f : Found) × (table : Bytes) × (search_tcam unit blank
      ≡ some (some f, record unit { flow_table = table }))
    × Searched unit blank f table
search_tcam_lem_example = search_tcam_lem unit blank unit-IsValid (omega arith) unit_grouped

-- One pair in the cache.
abbrev cache : FlowCache
cache = record {
  flow_cache = (none, 0) ∷ (none, 0) ∷ (none, 0) ∷ (none, 0) ∷ (some 0, 3) ∷ [];
  cache_top = 2;
}

cache-Unfilled : Unfilled cache
cache-Unfilled = record {
  rows = refl;
  started = omega arith;
  top_in = omega arith;
  blank = blank_row;
}
  where
    blank_row : (i : ℕ) → i ≤ 3 → (entry : ℕ) × (get_elem? cache.flow_cache i ≡ some (none, entry))
    blank_row zero h = (0, refl)
    blank_row (suc zero) h = (0, refl)
    blank_row (suc (suc zero)) h = (0, refl)
    blank_row (suc (suc (suc zero))) h = (0, refl)
    blank_row (suc (suc (suc (suc i)))) h = absurd (omega arith)

remember-Unfilled_example :
    Returns (λ cache'. Unfilled cache' × (cache'.cache_top ≡ 3)) (remember cache 1 4)
remember-Unfilled_example = remember-Unfilled cache 1 4 cache-Unfilled (omega arith)

search_cache_faults_example : search_cache cache blank unit ≡ none
search_cache_faults_example = search_cache_faults cache blank unit cache-Unfilled (omega arith)

write_new_flow_entry_lem_example :
    Returns (EntryWritten unit (replicate 46 7)) (write_new_flow_entry unit (replicate 46 7))
write_new_flow_entry_lem_example =
    write_new_flow_entry_lem unit (replicate 46 7) (omega arith) (omega arith)
