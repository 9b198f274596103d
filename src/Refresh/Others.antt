-- ===== src/Refresh/Others.antt =====
-- internal/catalog/catalog.go: what others may do to the catalog while a refresh is under way.
use grokbuild_pool.Base.{ℤ, String, List, [], ◌∷◌}
use grokbuild_pool.Lease.Catalog.{Account, Catalog}
use grokbuild_pool.Catalog.Rows.{upsert_many, batch_delete}
use grokbuild_pool.Catalog.Writes.{Write, write}

-- Any of the modelled writes: one that raises a revision, a removal of rows, and rows put anew,
-- which may set a revision back.
pub data Other : Type 0 where
  changes : Write → Other
  deletes : List String → Other
  upserts : ℤ → List Account → Other

unfoldable pub other : Catalog → Other → Catalog
unfolding write upsert_many batch_delete
other c (changes w) = write c w
other c (deletes ids) = (batch_delete c ids).0
other c (upserts now accounts) = (upsert_many now c accounts).0

unfoldable pub others : Catalog → List Other → Catalog
unfolding other
others c [] = c
others c (o ∷ os) = others (other c o) os
