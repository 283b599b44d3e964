-- ===== src/Memory/Vmm/Field.antt =====
-- The bit fields of an entry: what each store leaves in the others.
use nedoos.Prelude.{ℕ, ◌/◌, ◌%◌, ◌^◌, ◌≡◌, arith}
use nedoos.Prelude.Bits.{bit_and_mask}
use nedoos.Memory.Vmm.{present, rw_bit, user, frame, fill, page_table_index}

pub record Holds (w page rw_flag user_flag : ℕ) : Type 0 where
  pub is_present : present w ≡ 1
  pub has_rw : rw_bit w ≡ rw_flag % 2
  pub has_user : user w ≡ user_flag % 2
  pub has_frame : frame w ≡ page % 2 ^ 20

pub fill-Holds : (w page r u : ℕ) → Holds (fill w page r u) page r u
fill-Holds w page r u = record {
  is_present = omega arith;
  has_rw = omega arith;
  has_user = omega arith;
  has_frame = omega arith;
}

pub page_table_index_lem : (v : ℕ) → page_table_index v ≡ v / 2 ^ 12 % 2 ^ 10
page_table_index_lem v = bit_and_mask 10 (v / 2 ^ 12)
