-- ===== src/Base/Dict.antt =====
-- `std::unordered_map` with texts for keys, as a list of entries.
use mathlib.Core.Path.{◌≡◌, refl, ap}
use mathlib.Core.Bool.{Bool, true, false}
use mathlib.Core.List.{List, [], ◌∷◌}
use mathlib.Core.Option.{Option, none, some}
use native.Mathlib.Omega.{arith}
use liva_lang.Base.Lists.{Bytes, bytes_eq, bytes_eq_iff}
use liva_lang.Base.Tests.{if◌then◌else◌}
pub mod Laws

abbrev pub Dict {ℓ} : Type ℓ → Type ℓ
Dict A = List (Bytes × A)

module _ {ℓ} {A : Type ℓ} where
  -- `find`
  unfoldable pub lookup_key : Bytes → Dict A → Option A
  unfolding bytes_eq
  lookup_key k [] = none
  lookup_key k ((j, a) ∷ d) = if bytes_eq j k then some a else lookup_key k d

  -- `d[k] = a`
  unfoldable pub put_key : Bytes → A → Dict A → Dict A
  unfolding bytes_eq
  put_key k a [] = (k, a) ∷ []
  put_key k a ((j, b) ∷ d) = if bytes_eq j k then (j, a) ∷ d else (j, b) ∷ put_key k a d

  -- The value of a key that is there is changed.
  unfoldable pub modify_key : Bytes → (A → A) → Dict A → Dict A
  unfolding bytes_eq
  modify_key k f [] = []
  modify_key k f ((j, b) ∷ d) = if bytes_eq j k then (j, f b) ∷ d else (j, b) ∷ modify_key k f d

  -- `erase`
  unfoldable pub erase_key : Bytes → Dict A → Dict A
  unfolding bytes_eq
  erase_key k [] = []
  erase_key k ((j, b) ∷ d) = if bytes_eq j k then erase_key k d else (j, b) ∷ erase_key k d

  unfoldable pub keys : Dict A → List Bytes
  keys [] = []
  keys ((j, b) ∷ d) = j ∷ keys d
