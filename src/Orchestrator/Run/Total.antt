-- ===== src/Orchestrator/Run/Total.antt =====
-- The moves of a level of orchestrator.go are counted.
use mantlekeep.Prelude.{ℕ, String, List, ◌∷◌, ◌≡◌, Result, ◌+◌, suc, length, length-append, arith}
use mantlekeep.Orchestrator.Graph.{Step}
use mantlekeep.Orchestrator.Run.{Level, LevelRun, Moves, RunsLevel, starts, settles, stays, moves}

module _ (now : ℕ → ℕ) (runner : Step → Result String String) (dag : String) where
  abbrev pub move_count : {a b : Level} → Moves now runner dag a b → ℕ
  move_count stays = 0
  move_count (moves m rest) = suc (move_count rest)

  -- The moves that a level has left.
  abbrev moves_left : Level → ℕ
  moves_left l = length l.to_start + length l.to_start + length l.running

  move_count-moves_left :
      {a b : Level} (run : Moves now runner dag a b) → move_count run + moves_left b ≡ moves_left a
  move_count-moves_left stays = omega arith
  move_count-moves_left (moves (starts xs ys running s r) rest) =
      ground (arith, move_count-moves_left rest, length-append xs ys, length-append xs (s ∷ ys))
  move_count-moves_left (moves (settles to_start xs ys s r) rest) =
      ground (arith, move_count-moves_left rest, length-append xs ys, length-append xs (s ∷ ys))

  -- However the steps of a level interleave, its wait is over after two moves for each step: the start
  -- and the end.
  pub move_count-length :
      (level : List Step) (r r' : LevelRun) (run : RunsLevel now runner dag level r r')
      → move_count run ≡ length level + length level
  move_count-length level r r' run = ground (arith, move_count-moves_left run)
