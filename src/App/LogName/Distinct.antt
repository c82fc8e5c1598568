-- ===== src/App/LogName/Distinct.antt =====
-- Different counts give different names.
use efc.Common.{
  ℕ, zero, suc, ◌+◌, ◌-◌, ◌*◌, ◌/◌, ◌%◌, ◌^◌, ◌≤◌, ◌<◌, ◌≡◌, ◌≢◌, sym, ap, ◌∙◌, List, [], ◌∷◌, ◌++◌,
  false, none, Bool-cases, inl, inr, ltb, arith, codes, take-length_le, drop, append_assoc, lt→ltb,
  length, length-append, if◌then◌else◌,
}
use native.Mathlib.Nat.{pow-suc}
use efc.App.Boot.{Nvs, IsNvs, nvs_boot_count_id, count_of_boot}
use efc.App.Boot.Counts.{NeverFails, boots_are_counted}
use efc.App.LogName.{decimal, filename}

-- The number that decimal digits stand for, after the number `acc`; it stops at any other byte.
abbrev read_decimal : ℕ → List ℕ → ℕ
read_decimal acc [] = acc
read_decimal acc (c ∷ cs) =
    let more = read_decimal (acc * 10 + (c - b'0')) cs in if ltb c b'0' then acc else more

digit :
    (acc d : ℕ) (rest : List ℕ)
    → d < 10
    → read_decimal acc ((b'0' + d) ∷ rest) ≡ read_decimal (acc * 10 + d) rest
digit acc d rest h =
    let test : ltb (b'0' + d) b'0' ≡ false = ground arith in
    let value : b'0' + d - b'0' ≡ d = omega arith in rw (test, value)

read_decimal-decimal :
    (fuel n : ℕ) (rest : List ℕ)
    → n < 10 ^ fuel
    → read_decimal 0 (decimal fuel n ++ rest) ≡ read_decimal n rest
unfolding decimal
read_decimal-decimal zero n rest h = ap (λ m. read_decimal m rest) (omega arith)
read_decimal-decimal (suc fuel) n rest h = elim (Bool-cases (ltb n 10)) [
  | inl small ↦
      rw (small) (digit 0 n rest (ground arith) ∙ ap (λ m. read_decimal m rest) (omega arith))
  | inr large ↦
      rw (large, append_assoc)
        (read_decimal-decimal fuel (n / 10) ((b'0' + n % 10) ∷ rest)
            (omega (arith, pow-suc 10 fuel))
          ∙ digit (n / 10) (n % 10) rest (omega arith)
          ∙ ap (λ m. read_decimal m rest) (omega arith))
]

length-decimal : (fuel n : ℕ) → length (decimal fuel n) ≤ fuel
unfolding decimal
length-decimal zero n = omega arith
length-decimal (suc fuel) n = ground (
  arith,
  length-decimal fuel (n / 10),
  length-append (decimal fuel (n / 10)) ((b'0' + n % 10) ∷ []),
)

-- The name of a count, where nothing is cut off.
filename_lem :
    (lfs_name_max count : ℕ)
    → 25 ≤ lfs_name_max
    → count < 2 ^ 31
    → filename lfs_name_max count ≡ codes "/SD:/log_" ++ (decimal 10 count ++ codes ".ulg")
unfolding filename
filename_lem lfs_name_max count hm hc = rw (lt→ltb count (2 ^ 31) hc) (
    take-length_le (lfs_name_max - 1) _
      (omega (arith, length-append (decimal 10 count) (codes ".ulg"), length-decimal 10 count)))

-- With a buffer of at least 25 bytes for the name, two counts below 2 ^ 31 have the same file
-- name only if they are the same.
pub filename-injective :
    (lfs_name_max a b : ℕ)
    → 25 ≤ lfs_name_max
    → a < 2 ^ 31
    → b < 2 ^ 31
    → filename lfs_name_max a ≡ filename lfs_name_max b
    → a ≡ b
filename-injective lfs_name_max a b hm ha hb e =
    sym (read_back a ha) ∙ ap (λ cs. read_decimal 0 (drop 9 cs)) same ∙ read_back b hb
  where
    same :
        codes "/SD:/log_" ++ (decimal 10 a ++ codes ".ulg")
        ≡ codes "/SD:/log_" ++ (decimal 10 b ++ codes ".ulg")
    same = sym (filename_lem lfs_name_max a hm ha) ∙ e ∙ filename_lem lfs_name_max b hm hb

    read_back : (n : ℕ) → n < 2 ^ 31 → read_decimal 0 (decimal 10 n ++ codes ".ulg") ≡ n
    read_back n h = read_decimal-decimal 10 n (codes ".ulg") (omega arith)

-- On storage as IsNvs describes it, that starts without a count and never refuses a write, with a
-- buffer of at least 25 bytes for the name: any two different boots of the first 2 ^ 31 have log
-- files of different names.
pub distinct_logs :
    {os : Nvs} (flash : IsNvs os) (reliable : NeverFails os) (lfs_name_max m n : ℕ) (s : os.State)
    → 25 ≤ lfs_name_max
    → m < n
    → n < 2 ^ 31
    → flash.stored s nvs_boot_count_id ≡ none
    → filename lfs_name_max (count_of_boot os m s) ≢ filename lfs_name_max (count_of_boot os n s)
distinct_logs flash reliable lfs_name_max m n s hm lt hn e same =
    let left = boots_are_counted flash reliable m s (omega arith) e in
    let right = boots_are_counted flash reliable n s hn e in
    let equal =
      filename-injective lfs_name_max _ _ hm (omega (arith, left)) (omega (arith, right)) same in
    omega (arith, equal, left, right)
