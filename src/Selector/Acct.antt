-- ===== src/Selector/Acct.antt =====
-- internal/selector/sticky.go: the index from an account to the sticky keys that name it.
use grokbuild_pool.Base.{
  String, Bool, true, false, ◌≡◌, List, [], ◌∷◌, none, some, arith, length, eqb, string_eq, ◌==◌,
  ◌/=◌, eq_iff, lookup, insert, delete, has, lookup-insert, lookup-delete, if◌then◌else◌, ◌&&◌,
}
use grokbuild_pool.Hot.Meta.{IdSet}

abbrev pub AcctIndex : Type 0
AcctIndex = List (String × IdSet)

-- The keys under an account; a missing account has none.
abbrev pub keys_of : String → AcctIndex → IdSet
keys_of a ix = elim (lookup a ix) [ none ↦ [] | some m ↦ m ]

unfoldable pub index_account : AcctIndex → String → String → AcctIndex
index_account ix a key = if a == "" then ix else insert a (insert key tt (keys_of a ix)) ix

unfoldable pub unindex_account : AcctIndex → String → String → AcctIndex
unindex_account ix a key = elim (lookup a ix) [
  | none ↦ ix
  | some m ↦ let m' = delete key m in if eqb (length m') 0 then delete a ix else insert a m' ix
]

abbrev pub indexed : AcctIndex → String → String → Bool
indexed ix a key = has key (keys_of a ix)

pub indexed-index_account :
    (ix : AcctIndex) (a key b k : String)
    → indexed (index_account ix a key) b k
      ≡ (if (a /= "") && (a == b) && (key == k) then true else indexed ix b k)
unfolding index_account
indexed-index_account ix a key b k = ground (
  arith,
  eq_iff a b,
  eq_iff key k,
  lookup-insert a b (insert key tt (keys_of a ix)) ix,
  lookup-insert key k tt (keys_of a ix),
)

empty_has : (m : IdSet) (k : String) → length m ≡ 0 → has k m ≡ false
unfolding lookup
empty_has [] k h = ground arith
empty_has (x ∷ m) k h = absurd (ground arith)

nil_has : (k : String) → has {V = Unit {0}} k [] ≡ false
unfolding lookup
nil_has k = ground arith

pub indexed-unindex_account :
    (ix : AcctIndex) (a key b k : String)
    → indexed (unindex_account ix a key) b k
      ≡ (if (a == b) && (key == k) then false else indexed ix b k)
unfolding unindex_account
indexed-unindex_account ix a key b k = ground (
  arith,
  eq_iff a b,
  eq_iff key k,
  lookup-delete a b ix,
  lookup-insert a b (delete key (keys_of a ix)) ix,
  lookup-delete key k (keys_of a ix),
  empty_has (delete key (keys_of a ix)) k,
  nil_has k,
)
