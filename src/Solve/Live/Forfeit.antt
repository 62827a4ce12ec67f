-- ===== src/Solve/Live/Forfeit.antt =====
-- A handle whose models were streamed answers no request for all of them.
use themelios.Prelude.{ℕ, ◌≡◌, refl, Option, none, some, arith}
use themelios.Solve.Contract.{Vocabulary, Fault}
use themelios.Solve.Live.{
  ok, err, Run, DrainState, NotExhausted, LiveRun, Item, record_item, after_pull, pull, next_from,
  next, stream_next, drain_each, drain_complete,
}

-- The refusal of a streamed handle: the fault it remembers, or that its models were taken.
abbrev pub forfeit : {V : Vocabulary} → Option (Fault V) → NotExhausted V
forfeit none = NotExhausted.taken
forfeit (some f) = NotExhausted.faulted f

module _ {V : Vocabulary} (run : Run V) where
  record_item-drain :
      (l : LiveRun V run.State) (item : Option (Item V)) → (record_item run l item).drain ≡ l.drain
  unfolding record_item
  record_item-drain l (some (ok m)) = refl
  record_item-drain l (some (err f)) = refl
  record_item-drain l none = ground arith

  next_from-drain :
      (l : LiveRun V run.State) (item : Option (Item V)) → (next_from run l item).0.drain ≡ l.drain
  unfolding pull after_pull
  next_from-drain l (some item) = refl
  next_from-drain l none =
      let (s, item) = run.next_model l.current in record_item-drain (record l { current = s }) item

  stream_next-drain : (l : LiveRun V run.State) → (stream_next run l).0.drain ≡ DrainState.touched
  unfolding stream_next next
  stream_next-drain l = next_from-drain (record l { drain = DrainState.touched }) l.lookahead

  refused :
      (l : LiveRun V run.State) (fuel : ℕ)
      → l.drain ≡ DrainState.touched
      → drain_complete run fuel l ≡ some (l, err (forfeit l.faulted))
  unfolding drain_complete drain_each
  refused l fuel h = ground arith

  -- After any handle's next model was streamed, a request for all models is refused, without a look
  -- at the run and whatever the fuel: with the fault that the handle remembers, or, where it
  -- remembers none, because its models were taken.
  pub drain_complete-stream_next :
      (l : LiveRun V run.State) (fuel : ℕ)
      → drain_complete run fuel (stream_next run l).0
        ≡ some ((stream_next run l).0, err (forfeit (stream_next run l).0.faulted))
  drain_complete-stream_next l fuel = refused (stream_next run l).0 fuel (stream_next-drain l)
