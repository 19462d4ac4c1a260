-- ===== src/ThreadPool/Invariant.antt =====
-- What holds of the members in every reachable state.
pub mod Moves
pub mod Preserved
use tftpserver.Prelude.{
  ℕ, ◌+◌, ◌≡◌, Bool, true, false, List, [], ◌++◌, Option, none, some, length, if◌then◌else◌,
}
use tftpserver.ThreadPool.{
  Task, Worker, Shared, Phase, not_called, before_notify, joining, clearing, shut_down, AllEnded,
}
use tftpserver.ThreadPool.Counting.{total, has_lock, is_active, has_task}

-- The holders of the mutex outside the workers, and what its state says.
abbrev pub submitters : Option Task → ℕ
submitters none = 0
submitters (some _) = 1

abbrev pub holders : Bool → ℕ
holders true = 1
holders false = 0

-- What goes with each phase of `Shutdown`.
abbrev pub InPhase : Phase → Shared → List Worker → Type 0
InPhase not_called s ws = (s.stopping ≡ false) × (s.cleared ≡ [])
InPhase before_notify s ws = (s.stopping ≡ true) × (s.cleared ≡ [])
InPhase joining s ws = (s.stopping ≡ true) × (s.cleared ≡ [])
InPhase clearing s ws = (s.stopping ≡ true) × (s.cleared ≡ []) × AllEnded ws
InPhase shut_down s ws = (s.stopping ≡ true) × (s.admitted ≡ none) × AllEnded ws × (s.tasks ≡ [])

-- The mutex has one holder at most; `active_tasks` counts the workers in a call; the tasks leave the
-- queue in the order in which they were accepted, each once; and each task that left the queue is
-- in the hand of one worker, or its call has ended.
pub record IsConsistent (n : ℕ) (s : Shared) (ws : List Worker) (phase : Phase) : Type 0 where
  pub count : length ws ≡ n
  pub one_holder : total has_lock ws + submitters s.admitted ≡ holders s.locked
  pub active : s.active_tasks ≡ total is_active ws
  pub in_order : s.accepted ≡ s.taken ++ (s.tasks ++ s.cleared)
  pub in_hand : length s.taken ≡ total has_task ws + length s.finished
  pub in_phase : InPhase phase s ws
