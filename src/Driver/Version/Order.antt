-- ===== src/Driver/Version/Order.antt =====
-- The order of versions.
use liva_lang.Base.{Bool, true, false, ◌&&◌, not, ◌≡◌, ◌↔◌, refl, ap, ◌∙◌, arith}
use liva_lang.Base.Decimal.{ℤ, pos, negsuc}
use liva_lang.Driver.Version.{SemVer, less_ℤ, eq_ℤ, equals, less}

pub eq_ℤ_iff : (a b : ℤ) → (eq_ℤ a b ≡ true) ↔ (a ≡ b)
eq_ℤ_iff (pos a) (pos b) = ground arith
eq_ℤ_iff (pos a) (negsuc b) = ground arith
eq_ℤ_iff (negsuc a) (pos b) = ground arith
eq_ℤ_iff (negsuc a) (negsuc b) = ground arith

pub less_ℤ_irrefl : (a : ℤ) → less_ℤ a a ≡ false
less_ℤ_irrefl (pos a) = ground arith
less_ℤ_irrefl (negsuc a) = ground arith

pub less_ℤ_trans : (a b c : ℤ) → less_ℤ a b ≡ true → less_ℤ b c ≡ true → less_ℤ a c ≡ true
less_ℤ_trans (pos a) (pos b) (pos c) = ground arith
less_ℤ_trans (pos a) (pos b) (negsuc c) = ground arith
less_ℤ_trans (pos a) (negsuc b) c = ground arith
less_ℤ_trans (negsuc a) b (pos c) = ground arith
less_ℤ_trans (negsuc a) (pos b) (negsuc c) = ground arith
less_ℤ_trans (negsuc a) (negsuc b) (negsuc c) = ground arith

pub less_ℤ_total : (a b : ℤ) → eq_ℤ a b ≡ false → less_ℤ b a ≡ not (less_ℤ a b)
less_ℤ_total (pos a) (pos b) = ground arith
less_ℤ_total (pos a) (negsuc b) = ground arith
less_ℤ_total (negsuc a) (pos b) = ground arith
less_ℤ_total (negsuc a) (negsuc b) = ground arith

parts_equal : (v o : SemVer) → v.major ≡ o.major → v.minor ≡ o.minor → v.patch ≡ o.patch → v ≡ o
parts_equal v o e f g =
    ap (λ (x : ℤ). record v { major = x }) e
    ∙ ap (λ (x : ℤ). record v { major = o.major; minor = x }) f
    ∙ ap (λ (x : ℤ). record v { major = o.major; minor = o.minor; patch = x }) g

both : (a b : Bool) → ((a && b) ≡ true) ↔ ((a ≡ true) × (b ≡ true))
both true b = (λ e. (refl, e), λ p. p.1)
both false b = (λ e. ground (arith, e), λ p. p.0)

equals_iff : (v o : SemVer) → (equals v o ≡ true) ↔ (v ≡ o)
unfolding equals
equals_iff v o =
    let outer = both (eq_ℤ v.major o.major) (eq_ℤ v.minor o.minor && eq_ℤ v.patch o.patch) in
    let inner = both (eq_ℤ v.minor o.minor) (eq_ℤ v.patch o.patch) in
    (
      λ e.
          let p = outer.0 e in
          let q = inner.0 p.1 in
          parts_equal v o ((eq_ℤ_iff v.major o.major).0 p.0) ((eq_ℤ_iff v.minor o.minor).0 q.0)
            ((eq_ℤ_iff v.patch o.patch).0 q.1),
      λ e. outer.1 (
        (eq_ℤ_iff v.major o.major).1 (ap (λ (x : SemVer). x.major) e),
        inner.1 (
          (eq_ℤ_iff v.minor o.minor).1 (ap (λ (x : SemVer). x.minor) e),
          (eq_ℤ_iff v.patch o.patch).1 (ap (λ (x : SemVer). x.patch) e),
        ),
      ),
    )

less_irrefl : (v : SemVer) → less v v ≡ false
unfolding less
less_irrefl v = ground (arith, less_ℤ_irrefl v.major, less_ℤ_irrefl v.minor, less_ℤ_irrefl v.patch)

eq_ℤ_sym : (a b : ℤ) → eq_ℤ a b ≡ eq_ℤ b a
eq_ℤ_sym (pos a) (pos b) = ground arith
eq_ℤ_sym (pos a) (negsuc b) = refl
eq_ℤ_sym (negsuc a) (pos b) = refl
eq_ℤ_sym (negsuc a) (negsuc b) = ground arith

less_total : (v o : SemVer) → equals v o ≡ false → less o v ≡ not (less v o)
unfolding less equals
less_total v o h = ground (
  arith,
  h,
  less_ℤ_total v.major o.major,
  less_ℤ_total v.minor o.minor,
  less_ℤ_total v.patch o.patch,
  eq_ℤ_sym v.major o.major,
  eq_ℤ_sym v.minor o.minor,
)

-- Lexicographic, part by part.
less_trans : (u v w : SemVer) → less u v ≡ true → less v w ≡ true → less u w ≡ true
unfolding less
less_trans u v w h k = ground (
  arith,
  h,
  k,
  less_ℤ_trans u.major v.major w.major,
  less_ℤ_trans u.minor v.minor w.minor,
  less_ℤ_trans u.patch v.patch w.patch,
  eq_ℤ_iff u.major v.major,
  eq_ℤ_iff v.major w.major,
  eq_ℤ_iff u.major w.major,
  eq_ℤ_iff u.minor v.minor,
  eq_ℤ_iff v.minor w.minor,
  eq_ℤ_iff u.minor w.minor,
  less_ℤ_irrefl u.major,
  less_ℤ_irrefl u.minor,
)

-- `operator<` is a strict total order whose equality is that of `operator==`: no version is below
-- itself, it is transitive, and of two versions that differ exactly one is below the other; two
-- versions are the same exactly if their parts are.
pub less-equals :
    (u v w : SemVer)
    → (less u u ≡ false)
      × (less u v ≡ true → less v w ≡ true → less u w ≡ true)
      × (equals u v ≡ false → less v u ≡ not (less u v))
      × ((equals u v ≡ true) ↔ (u ≡ v))
less-equals u v w = (less_irrefl u, less_trans u v w, less_total u v, equals_iff u v)
