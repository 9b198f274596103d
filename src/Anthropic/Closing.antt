-- ===== src/Anthropic/Closing.antt =====
-- internal/protocol/anthropic/stream.go: the end of a stream. Every block that is open is stopped
-- once, so that the message can end.
use grokbuild_pool.Base.{
  ℕ, String, Bool, true, false, not, List, [], ◌∷◌, none, some, if◌then◌else◌, ◌==◌, string_eq,
  eq_iff, keep, has, lookup, insert, lookup-insert, IsUniq, ◌≡◌, inl, inr, refl, sym, subst, ◌∙◌,
  arith, Bool-cases, Option-cases, if_split,
}
use grokbuild_pool.Anthropic.Exec.{Answer, done, write_failed, ◌>>=◌}
use grokbuild_pool.Anthropic.Frames.{Frame, block_stop, Client}
use grokbuild_pool.Anthropic.Stream.{
  Stream, Block, write_event, mark_stopped, finalize_thinking, write_signature, close_thinking,
}
use grokbuild_pool.Anthropic.Process.{open_blocks, stop_each, insert_by_index, sort_by_index}
use grokbuild_pool.Anthropic.Tracks.{Slot, of_thinking, of_key}
use grokbuild_pool.Anthropic.Live.{Live, Linked, slot_get, noted_stopped}

abbrev pub Entries : Type 0
Entries = List (String × Block)

lookup-insert_by_index :
    (e : String × Block) (entries : Entries) (k : String)
    → has e.0 entries ≡ false
    → lookup k (insert_by_index e entries) ≡ (if e.0 == k then some e.1 else lookup k entries)
unfolding lookup insert_by_index
lookup-insert_by_index (j, b) [] k absent = refl
lookup-insert_by_index (j, b) ((i, d) ∷ rest) k absent =
    ground (arith, eq_iff j k, eq_iff i k, eq_iff i j, lookup-insert_by_index (j, b) rest k)

insert_by_index-IsUniq :
    (e : String × Block) (entries : Entries)
    → has e.0 entries ≡ false
    → IsUniq entries
    → IsUniq (insert_by_index e entries)
unfolding lookup insert_by_index
insert_by_index-IsUniq (j, b) [] absent u = (refl, tt)
insert_by_index-IsUniq (j, b) ((i, d) ∷ rest) absent u = ground (
  arith,
  eq_iff i j,
  eq_iff j i,
  lookup-insert_by_index (j, b) rest i,
  insert_by_index-IsUniq (j, b) rest,
)

sort_by_index_lem :
    (entries : Entries) (k : String)
    → IsUniq entries
    → (lookup k (sort_by_index entries) ≡ lookup k entries) × IsUniq (sort_by_index entries)
unfolding lookup sort_by_index
sort_by_index_lem [] k u = (refl, tt)
sort_by_index_lem ((j, b) ∷ rest) k u =
    let sorted = sort_by_index rest in
    let (same, u') = sort_by_index_lem rest k u.1 in
    let absent : has j sorted ≡ false = ground (arith, (sort_by_index_lem rest j u.1).0) in
    (
      lookup-insert_by_index (j, b) sorted k absent ∙ ground arith,
      insert_by_index-IsUniq (j, b) sorted absent u',
    )

abbrev running : String × Block → Bool
running e = not e.1.stopped

has-keep :
    (entries : Entries) (k : String) → has k entries ≡ false → has k (keep running entries) ≡ false
unfolding lookup keep
has-keep [] k absent = refl
has-keep ((j, b) ∷ rest) k absent = ground (arith, has-keep rest k)

lookup-keep :
    (entries : Entries) (k : String) (b : Block)
    → IsUniq entries
    → (lookup k (keep running entries) ≡ some b → (lookup k entries ≡ some b) × (b.stopped ≡ false))
      × ((lookup k entries ≡ some b) → b.stopped ≡ false → lookup k (keep running entries) ≡ some b)
unfolding lookup keep
lookup-keep [] k b u = (λ e. cc, λ e r. cc)
lookup-keep ((j, d) ∷ rest) k b u = elim (Bool-cases (j == k)) [
  | inl e ↦
      let at : j ≡ k = (eq_iff j k).0 e in
      let absent : has k (keep running rest) ≡ false =
        has-keep rest k (subst (λ i. has i rest ≡ false) at u.0) in
      (λ h. ground arith, λ h r. ground arith)
  | inr e ↦ (
    λ h. ground (arith, (lookup-keep rest k b u.1).0),
    λ h r. ground (arith, (lookup-keep rest k b u.1).1),
  )
]

-- The entries are the blocks that are not stopped, each once.
pub record Lists (entries : Entries) (blocks : Entries) : Type 0 where
  pub uniq : IsUniq entries
  pub listed :
      (k : String) (b : Block)
      → lookup k entries ≡ some b
      → (lookup k blocks ≡ some b) × (b.stopped ≡ false)
  pub complete :
      (k : String) (b : Block)
      → lookup k blocks ≡ some b
      → b.stopped ≡ false
      → lookup k entries ≡ some b

keep-IsUniq : (entries : Entries) → IsUniq entries → IsUniq (keep running entries)
unfolding keep
keep-IsUniq [] u = tt
keep-IsUniq ((j, b) ∷ rest) u = ground (arith, has-keep rest j u.0, keep-IsUniq rest u.1)

pub open_blocks-Lists : (s : Stream) → IsUniq s.blocks → Lists (open_blocks s) s.blocks
unfolding open_blocks
open_blocks-Lists s u =
    let kept = keep running s.blocks in
    let u' = keep-IsUniq s.blocks u in
    record {
      uniq = (sort_by_index_lem kept "" u').1;
      listed = λ k b e. (lookup-keep s.blocks k b u).0 (sym (sort_by_index_lem kept k u').0 ∙ e);
      complete = λ k b e r. (sort_by_index_lem kept k u').0 ∙ (lookup-keep s.blocks k b u).1 e r;
    }

-- After the first entry is stopped, the others are listed.
Lists-rest :
    (key : String) (b : Block) (rest blocks : Entries)
    → Lists ((key, b) ∷ rest) blocks
    → Lists rest (insert key (record b { stopped = true }) blocks)
unfolding lookup
Lists-rest key b rest blocks l = record {
  uniq = l.uniq.1;
  listed = λ k d e.
      let other : (key == k) ≡ false = elim (Bool-cases (key == k)) [
        | inl same ↦
            ground (arith, subst (λ i. has i rest ≡ false) ((eq_iff key k).0 same) l.uniq.0)
        | inr other ↦ other
      ] in
      ground (arith, lookup-insert key k (record b { stopped = true }) blocks, l.listed k d);
  complete = λ k d e r.
      ground (arith, lookup-insert key k (record b { stopped = true }) blocks, l.complete k d);
}

-- No block of the map is open.
unfoldable pub AllStopped : Entries → Type 0
AllStopped blocks = (k : String) (b : Block) → lookup k blocks ≡ some b → b.stopped ≡ true

nothing_listed : (k : String) (b : Block) → lookup k [] ≡ some b → b.stopped ≡ true
unfolding lookup
nothing_listed k b e = cc

module _ (fails : List Frame → Bool) (clock_id : List Frame → String) (itoa : ℕ → String) where
  -- The state after the stops, and that a run without failures has stopped every block.
  pub record Stopped (must : Bool) (s : Stream) (r : Stream × Answer (Unit {0})) : Type 0 where
    pub live : Live fails must r.0
    pub kept : r.0.thinking_block ≡ s.thinking_block
    pub all : r.1 ≡ done tt → AllStopped r.0.blocks

  stop_each_step :
      (key : String) (b : Block) (rest : Entries) (s : Stream)
      → stop_each fails clock_id itoa ((key, b) ∷ rest) s ≡ (
          if fails s.out_rev
          then (s, write_failed)
          else stop_each fails clock_id itoa rest
              (mark_stopped key b (record s { out_rev = block_stop b.index ∷ s.out_rev })))
  unfolding stop_each ◌>>=◌ write_event
  stop_each_step key b rest s = elim (Bool-cases (fails s.out_rev)) [
    | inl broken ↦ rw broken refl
    | inr fine ↦ rw fine refl
  ]

  mark_stopped_rest :
      (key : String) (b : Block) (s : Stream)
      → (mark_stopped key b s).thinking_block ≡ s.thinking_block
  unfolding mark_stopped
  mark_stopped_rest key b s = refl

  mark_stopped_blocks :
      (key : String) (b : Block) (s : Stream)
      → (mark_stopped key b s).blocks ≡ insert key (record b { stopped = true }) s.blocks
  unfolding mark_stopped
  mark_stopped_blocks key b s = refl

  pub stop_each-Stopped :
      (must : Bool) (entries : Entries) (s : Stream)
      → Live fails must s
      → Lists entries s.blocks
      → Stopped must s (stop_each fails clock_id itoa entries s)
  stop_each-Stopped must [] s v l =
      unfold stop_each AllStopped in
      record {
        live = v;
        kept = refl;
        all = λ _ k b e. elim (Bool-cases b.stopped) [
          | inl stopped ↦ stopped
          | inr going ↦ nothing_listed k b (l.complete k b e going)
        ];
      }
  stop_each-Stopped must ((key, b) ∷ rest) s v l =
      subst (Stopped must s) (sym (stop_each_step key b rest s)) (
        if_split (Stopped must s) (fails s.out_rev)
          (λ broken. record { live = v; kept = refl; all = λ e. cc })
          (λ fine.
            let (at, going) = l.listed key b (unfold lookup in ground (arith, eq_iff key key)) in
            let s' = mark_stopped key b (record s { out_rev = block_stop b.index ∷ s.out_rev }) in
            let v' = noted_stopped fails clock_id must s v key b at going fine in
            let r = stop_each-Stopped must rest s' v' (
              subst (Lists rest)
                (sym (
                  mark_stopped_blocks key b
                    (record s { out_rev = block_stop b.index ∷ s.out_rev })))
                (Lists-rest key b rest s.blocks l)) in
            record {
              live = r.live;
              kept =
                  r.kept
                  ∙ mark_stopped_rest key b (record s { out_rev = block_stop b.index ∷ s.out_rev });
              all = r.all;
            }))

  slot_stopped :
      (s : Stream)
      → s.thinking_block ≡ none
      → AllStopped s.blocks
      → (k : Slot) (b : Block) → slot_get s.thinking_block s.blocks k ≡ some b
      → b.stopped ≡ true
  unfolding AllStopped
  slot_stopped s quiet stopped of_thinking b at = cc
  slot_stopped s quiet stopped (of_key key) b at = stopped key b at

  -- The message can end: nothing is open.
  pub all_closed :
      (s : Stream) (c : Client)
      → Linked s c
      → s.thinking_block ≡ none
      → AllStopped s.blocks
      → (i : ℕ) → c.open_at i ≡ false
  unfolding AllStopped
  all_closed s c l quiet stopped i = elim (Bool-cases (c.open_at i)) [
    | inl is_open ↦
        let (k, b, at, at_i, going) = l.tracks.owned i is_open in
        cc (slot_stopped s quiet stopped k b at)
    | inr closed ↦ closed
  ]

  pub finalize_quiet :
      (clear : Bool) (s : Stream) (c : Client)
      → Linked s c
      → (finalize_thinking fails clock_id clear s).1 ≡ done tt
      → (finalize_thinking fails clock_id clear s).0.thinking_block ≡ none
  unfolding finalize_thinking write_signature close_thinking write_event ◌>>=◌
  finalize_quiet clear s c l e = elim (Option-cases s.thinking_block) [
    | inl quiet ↦ ground arith
    | inr (b, at) ↦ ground (arith, (l.awake b at).1)
  ]
