-- ===== src/Sema/Ownership/GivenBack.antt =====
-- What the releases behind a statement give back to the variables that were borrowed.
use liva_lang.Base.{Bool, Option, some, Bytes, ◌≡◌}
use liva_lang.Sema.Ownership.Info.{OwnershipInfo}

-- A binding that borrows `x`, mutably or not.
abbrev Loan : Bytes → Bool → Option OwnershipInfo → Type 0
Loan x b o = (i : OwnershipInfo) × (o ≡ some i) × (i.borrows_name ≡ x) × (i.borrows_mutable ≡ b)

KeepsLoan : (OwnershipInfo → OwnershipInfo) → Type 0
KeepsLoan f =
    (i : OwnershipInfo)
    → ((f i).borrows_name ≡ i.borrows_name) × ((f i).borrows_mutable ≡ i.borrows_mutable)
