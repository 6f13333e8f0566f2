-- ===== src/FlowUnit/Write.antt =====
-- What writing a new entry leaves in the flow table.
use net_walk.Base.{
  ℕ, ◌+◌, ◌-◌, ◌*◌, ◌≤◌, ◌<◌, ◌≡◌, ◌⊎◌, refl, ap, ◌∙◌, arith, Bytes, length, length-set, byte_at,
  set, get_or-set, store_in, copy_bytes_lem, ◌==◌, if◌then◌else◌, Returns,
}
use net_walk.FlowUnit.{TcamUnit, write_new_flow_entry}

-- The row of the tail holds the entry, with a counter of 0 and a timeout of 255.
pub record EntryWritten (tcam : TcamUnit) (entry : Bytes) (tcam' : TcamUnit) : Type 0 where
  pub fields :
      (k : ℕ) → k < 46 → byte_at tcam'.flow_table (tcam.flow_tail * 48 + k) ≡ byte_at entry k
  pub hits : byte_at tcam'.flow_table (tcam.flow_tail * 48 + 46) ≡ 0
  pub timeout : byte_at tcam'.flow_table (tcam.flow_tail * 48 + 47) ≡ 255
  pub others :
      (q : ℕ)
      → (q < tcam.flow_tail * 48) ⊎ (tcam.flow_tail * 48 + 48 ≤ q)
      → byte_at tcam'.flow_table q ≡ byte_at tcam.flow_table q
  pub size : length tcam'.flow_table ≡ length tcam.flow_table
  pub rest : tcam' ≡ record tcam { flow_table = tcam'.flow_table; flow_tail = tcam.flow_tail + 1 }

-- The row after its counter and its timeout were written.
ended : Bytes → ℕ → Bytes
ended table base = set (set table (base + 46) 0) (base + 46 + 1) 255

byte_at-ended :
    (table : Bytes) (base q : ℕ)
    → base + 48 ≤ length table
    → byte_at (ended table base) q
      ≡ (if base + 47 == q then 255 else if base + 46 == q then 0 else byte_at table q)
unfolding ended
byte_at-ended table base q h = ground (
  arith,
  get_or-set (set table (base + 46) 0) (base + 46 + 1) q 255 0,
  get_or-set table (base + 46) q 0 0,
  length-set table (base + 46) 0,
)

length-ended : (table : Bytes) (base : ℕ) → length (ended table base) ≡ length table
unfolding ended
length-ended table base =
    length-set (set table (base + 46) 0) (base + 46 + 1) 255 ∙ length-set table (base + 46) 0

-- If the flow table has room for a row at the tail and the entry has at least 46 bytes, then
-- `write_new_flow_entry` ends without a fault: the row of the tail holds the first 46 bytes of the
-- entry, the counter 0 and the timeout 255, the tail is one more, and all else stays.
pub write_new_flow_entry_lem :
    (tcam : TcamUnit) (entry : Bytes)
    → tcam.flow_tail * 48 + 48 ≤ length tcam.flow_table
    → 46 ≤ length entry
    → Returns (EntryWritten tcam entry) (write_new_flow_entry tcam entry)
unfolding write_new_flow_entry ended
write_new_flow_entry_lem tcam entry room long =
    let base : ℕ = tcam.flow_tail * 48 in
    let (table, run, p) =
      copy_bytes_lem 46 entry 0 tcam.flow_table base (omega arith) (omega arith) in
    let fits : base + 48 ≤ length table = omega (arith, p.size) in
    let at = byte_at-ended table base in
    (
      record tcam { flow_table = ended table base; flow_tail = tcam.flow_tail + 1 },
      rw
          (
            run,
            store_in table (base + 46) 0 (omega arith),
            store_in (set table (base + 46) 0) (base + 46 + 1) 255
                (omega (arith, length-set table (base + 46) 0)),
          )
          refl,
      record {
        fields = λ k h.
            at (base + k) fits
            ∙ ground (arith, p.bytes (base + k), ap (byte_at entry) (back base k));
        hits = at (base + 46) fits ∙ ground arith;
        timeout = at (base + 47) fits ∙ ground arith;
        others = λ q h. at q fits ∙ ground (arith, p.bytes q);
        size = length-ended table base ∙ p.size;
        rest = refl;
      },
    )
  where
    back : (base k : ℕ) → 0 + (base + k - base) ≡ k
    back base k = omega arith
