-- ===== src/FlowUnit.antt =====
-- flow-processing-unit/flow_unit.h: the tables of the TCAM, and how entries are written and moved.
-- An index outside an array is `none`. The text files that log every write are left out.
pub mod Search
pub mod Groups
pub mod Cache
pub mod Write
pub mod Insert
pub mod Delete
pub mod Modify
pub mod Apply
pub mod Histories
pub mod Unmatched
use net_walk.Base.{ℕ, ◌+◌, ◌*◌, Option, some, Bytes, ◌>>=◌, load, store, copy_bytes}
use net_walk.Bits.{reset_bit}
use net_walk.ModifyField.{actn_st_len}

-- MTCH_FLD_LEN, FLW_ENT_LEN, NO_F_FLWS and CACHE_SIZE
abbrev pub mtch_fld_len : ℕ
mtch_fld_len = 45

abbrev pub flw_ent_len : ℕ
flw_ent_len = 48

abbrev pub no_f_flws : ℕ
no_f_flws = 20

abbrev pub cache_size : ℕ
cache_size = 5

pub record TcamUnit : Type 0 where
  pub flow_table : Bytes
  pub mask_table : Bytes
  pub action_table : Bytes
  pub flag_table : Bytes
  pub flow_tail : ℕ
  pub mask_tail : ℕ

-- What the functions return for a position: one that is not negative, -1, RDNDNT, TBL_FULL or
-- STR_ERR.
pub data Position : Type 0 where
  at : ℕ → Position
  no_match : Position
  rdndnt : Position
  tbl_full : Position
  str_err : Position

-- The place of the bit that marks the first entry of a mask's group.
abbrev pub group_bit : ℕ → ℕ
group_bit entry = (entry * flw_ent_len + 44) * 8 + 4

-- The caller's array loses three bits too, so it is returned.
unfoldable pub write_new_mask : TcamUnit → Bytes → Option (TcamUnit × Bytes)
write_new_mask tcam mask = do
  mask₁ ← reset_bit mask 357
  mask₂ ← reset_bit mask₁ 358
  mask₃ ← reset_bit mask₂ 359
  table ← copy_bytes mtch_fld_len mask₃ 0 tcam.mask_table (tcam.mask_tail * mtch_fld_len)
  some (record tcam { mask_table = table; mask_tail = tcam.mask_tail + 1 }, mask₃)

unfoldable pub write_new_flow_entry : TcamUnit → Bytes → Option TcamUnit
write_new_flow_entry tcam flow_entry = do
  let base : ℕ = tcam.flow_tail * flw_ent_len
  table₁ ← copy_bytes (mtch_fld_len + 1) flow_entry 0 tcam.flow_table base
  table₂ ← store table₁ (base + (mtch_fld_len + 1)) 0
  table₃ ← store table₂ (base + (mtch_fld_len + 1) + 1) 255
  some (record tcam { flow_table = table₃; flow_tail = tcam.flow_tail + 1 })

unfoldable pub write_new_action : TcamUnit → Bytes → Bytes → ℕ → Option TcamUnit
write_new_action tcam action_set flag pos = do
  actions ← copy_bytes actn_st_len action_set 0 tcam.action_table (pos * actn_st_len)
  flag₀ ← load flag 0
  flags₁ ← store tcam.flag_table (2 * pos) flag₀
  flag₁ ← load flag 1
  flags₂ ← store flags₁ (2 * pos + 1) flag₁
  some (record tcam { action_table = actions; flag_table = flags₂ })
