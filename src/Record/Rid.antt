-- ===== src/Record/Rid.antt =====
-- `RID` of src/rm_rid.h: the page and the slot of a record.
use redbase.Base.{Bool, true, ◌&&◌, ◌≡◌, ◌↔◌, arith, ℤ, negsuc, eqb_ℤ}

pub record Rid : Type 0 where
  pub page : ℤ
  pub slot : ℤ

-- The default constructor: `NULL_PAGE` and `NULL_SLOT`.
abbrev pub null_rid : Rid
null_rid = record { page = negsuc 0; slot = negsuc 0 }

-- `operator==`
unfoldable pub rid_eq : Rid → Rid → Bool
rid_eq a b = eqb_ℤ b.page a.page && eqb_ℤ b.slot a.slot

-- Two identifiers compare equal exactly when they are the same page and slot.
pub rid_eq_iff : (a b : Rid) → (rid_eq a b ≡ true) ↔ (a ≡ b)
unfolding rid_eq
rid_eq_iff a b = ground arith
