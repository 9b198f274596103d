-- ===== src/Anthropic/Frames.antt =====
-- internal/protocol/anthropic/stream.go: the events of a Claude stream, and what a client may rely
-- on in their order.
use grokbuild_pool.Base.{
  ℕ, ◌+◌, ◌≤◌, eqb, ℤ, String, Bool, true, false, List, [], ◌∷◌, if◌then◌else◌, ◌≡◌,
}

pub data BlockHead : Type 0 where
  text thinking : BlockHead
  tool_use : String → String → BlockHead

pub data Delta : Type 0 where
  text_delta input_json_delta thinking_delta signature_delta : String → Delta

-- An error is given by the status and the message of its envelope.
pub data Frame : Type 0 where
  message_start : String → String → ℤ → Frame
  block_start : ℕ → BlockHead → Frame
  block_delta : ℕ → Delta → Frame
  block_stop : ℕ → Frame
  message_delta : String → ℤ → ℤ → Frame
  message_stop : Frame
  error : ℤ → String → Frame

-- What a client knows of the stream: which indices are open and from where on they are free.
pub record Client : Type 0 where
  pub started : Bool
  pub closing : Bool
  pub ended : Bool
  pub next : ℕ
  pub open_at : ℕ → Bool

unfoldable pub fresh_client : Client
fresh_client = record {
  started = false;
  closing = false;
  ended = false;
  next = 0;
  open_at = λ i. false;
}

abbrev pub set_open : (ℕ → Bool) → ℕ → Bool → ℕ → Bool
set_open f i v j = if eqb i j then v else f j

-- The message starts once. A block starts under an index that is above all before, and has its
-- deltas before its stop. The message ends once, after all its blocks, by message_delta and
-- message_stop or by an error, and nothing comes after that.
pub data Step (c : Client) : Frame → Client → Type 0 where
  start :
      {id model : String} {tokens : ℤ}
      → c.started ≡ false
      → c.ended ≡ false
      → Step c (message_start id model tokens) (record c { started = true })
  begin :
      {i : ℕ} {head : BlockHead}
      → c.started ≡ true
      → c.closing ≡ false
      → c.ended ≡ false
      → c.next ≤ i
      → Step c (block_start i head) (record c { next = i + 1; open_at = set_open c.open_at i true })
  grow :
      {i : ℕ} {delta : Delta}
      → c.closing ≡ false
      → c.ended ≡ false
      → c.open_at i ≡ true
      → Step c (block_delta i delta) c
  stop :
      {i : ℕ}
      → c.closing ≡ false
      → c.ended ≡ false
      → c.open_at i ≡ true
      → Step c (block_stop i) (record c { open_at = set_open c.open_at i false })
  close :
      {reason : String} {input output : ℤ}
      → c.started ≡ true
      → c.closing ≡ false
      → c.ended ≡ false
      → ((i : ℕ) → c.open_at i ≡ false)
      → Step c (message_delta reason input output) (record c { closing = true })
  finish : c.closing ≡ true → c.ended ≡ false → Step c message_stop (record c { ended = true })
  fail :
      {status : ℤ} {message : String}
      → c.closing ≡ false
      → c.ended ≡ false
      → ((i : ℕ) → c.open_at i ≡ false)
      → Step c (error status message) (record c { ended = true })

-- A stream, the last event first, that a client can follow.
pub data Follows : List Frame → Client → Type 0 where
  nothing : Follows [] fresh_client
  event :
      {frame : Frame} {frames : List Frame} {c c' : Client}
      → Follows frames c
      → Step c frame c'
      → Follows (frame ∷ frames) c'
