-- ===== src/TaskManager/Invariant/Commands.antt =====
-- Every call made while a callback runs keeps the invariant.
use event_hub_cpp.Prelude.{ℕ, refl, Option, none, List, [], ◌∷◌}
use event_hub_cpp.Task.{context_cancel, reschedule_at}
use event_hub_cpp.TaskManager.Types.{Manager, set_notifier, reset_notifier, set_exception_handler}
use event_hub_cpp.TaskManager.Cancel.{make_context}
use event_hub_cpp.TaskManager.Turns.{
  closes, clears_pending, Command, posts, posts_at, posts_every_after, posts_batch, cancels,
  cancels_own, reschedules_own, sets_notifier, resets_notifier, sets_exception_handler, apply,
  apply_all,
}
use event_hub_cpp.TaskManager.Invariant.Defs.{IsValid, Extends-refl}
use event_hub_cpp.TaskManager.Invariant.Cancel.{
  Keeps, Keeps-refl, cancel-Keeps, cancel_from_context-Keeps, reschedule_from_context-Keeps,
}
use event_hub_cpp.TaskManager.Invariant.Submit.{Extends-same, Keeps-trans}
use event_hub_cpp.TaskManager.Invariant.Post.{
  post-Keeps, post_at-Keeps, post_every_after-Keeps, post_batch-Keeps,
}
use event_hub_cpp.TaskManager.Invariant.Clear.{clear_pending-Keeps, close-Keeps}

-- Fields that the invariant does not read.
plain-Keeps :
    (m : Manager) (notifier handler : Option ℕ)
    → IsValid m
    → Keeps m (record m { notifier = notifier; exception_handler = handler })
plain-Keeps m notifier handler v = record {
  valid = record {
    ready_exact = v.ready_exact;
    pending_exact = v.pending_exact;
    index_made = v.index_made;
    ready_made = v.ready_made;
    delayed_made = v.delayed_made;
  };
  extends = Extends-same {a = m} refl refl (Extends-refl m);
}

pub apply-Keeps :
    (running : ℕ) (c : Command) (m : Manager) → IsValid m → Keeps m (apply running c m)
unfolding apply set_notifier reset_notifier set_exception_handler context_cancel reschedule_at
    make_context
apply-Keeps running (posts task options) m v = post-Keeps task options m v
apply-Keeps running (posts_at now due task options) m v = post_at-Keeps now due task options m v
apply-Keeps running (posts_every_after now later initial_delay interval task options) m v =
    post_every_after-Keeps now later initial_delay interval task options m v
apply-Keeps running (posts_batch tasks options) m v = post_batch-Keeps tasks options m v
apply-Keeps running (cancels id) m v = cancel-Keeps id m v
apply-Keeps running cancels_own m v = cancel_from_context-Keeps running m v
apply-Keeps running (reschedules_own due) m v = reschedule_from_context-Keeps running due m v
apply-Keeps running closes m v = close-Keeps m v
apply-Keeps running clears_pending m v = clear_pending-Keeps m v
apply-Keeps running (sets_notifier notifier) m v = plain-Keeps m notifier m.exception_handler v
apply-Keeps running resets_notifier m v = plain-Keeps m none m.exception_handler v
apply-Keeps running (sets_exception_handler handler) m v = plain-Keeps m m.notifier handler v

pub apply_all-Keeps :
    (running : ℕ) (cs : List Command) (m : Manager) → IsValid m → Keeps m (apply_all running cs m)
unfolding apply_all
apply_all-Keeps running [] m v = Keeps-refl v
apply_all-Keeps running (c ∷ cs) m v =
    let k = apply-Keeps running c m v in Keeps-trans k (apply_all-Keeps running cs _ k.valid)
