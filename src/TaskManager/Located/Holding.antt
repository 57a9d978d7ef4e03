-- ===== src/TaskManager/Located/Holding.antt =====
-- Which entries the queues and the heap hold after their operations.
use event_hub_cpp.Prelude.{
  ℕ, ◌≡◌, refl, subst, inl, inr, true, false, List, [], ◌∷◌, ◌++◌, Any-append_left,
  Any-append_right, Bool-cases,
}
use event_hub_cpp.Task.{TaskPriority, high, normal, low}
use event_hub_cpp.TaskManager.Types.{
  Control, Entry, Queues, entries, push_back, push_front, delayed_sooner,
}
use event_hub_cpp.TaskManager.Delayed.{push_heap, prune_heap, is_dead}
use event_hub_cpp.TaskManager.Located.Defs.{Holds}

-- Three lists put one after another, with an entry added to one of them.
abbrev P : ℕ → Entry → Type 0
P q e = e.control ≡ q

pub insert_right :
    (q : ℕ) (xs ys : List Entry) (e : Entry) → Holds q (xs ++ ys) → Holds q (xs ++ (e ∷ ys))
insert_right q [] ys e h = inr h
insert_right q (x ∷ xs) ys e (inl h) = inl h
insert_right q (x ∷ xs) ys e (inr h) = inr (insert_right q xs ys e h)

insert_end :
    (q : ℕ) (xs ys : List Entry) (e : Entry) → Holds q (xs ++ ys) → Holds q ((xs ++ (e ∷ [])) ++ ys)
insert_end q [] ys e h = inr h
insert_end q (x ∷ xs) ys e (inl h) = inl h
insert_end q (x ∷ xs) ys e (inr h) = inr (insert_end q xs ys e h)

pub inserted_right : (xs ys : List Entry) (e : Entry) → Holds e.control (xs ++ (e ∷ ys))
inserted_right [] ys e = inl refl
inserted_right (x ∷ xs) ys e = inr (inserted_right xs ys e)

inserted_end : (xs ys : List Entry) (e : Entry) → Holds e.control ((xs ++ (e ∷ [])) ++ ys)
inserted_end [] ys e = inl refl
inserted_end (x ∷ xs) ys e = inr (inserted_end xs ys e)

under :
    (xs ys zs : List Entry) (q : ℕ)
    → (Holds q ys → Holds q zs)
    → Holds q (xs ++ ys)
    → Holds q (xs ++ zs)
under [] ys zs q f h = f h
under (x ∷ xs) ys zs q f (inl h) = inl h
under (x ∷ xs) ys zs q f (inr h) = inr (under xs ys zs q f h)

pub push_back-Holds :
    (priority : TaskPriority) (e : Entry) (qs : Queues) (q : ℕ)
    → Holds q (entries qs)
    → Holds q (entries (push_back priority e qs))
unfolding push_back
push_back-Holds high e qs q h = insert_end q qs.high_queue (qs.normal_queue ++ qs.low_queue) e h
push_back-Holds normal e qs q h =
    under qs.high_queue _ _ q (insert_end q qs.normal_queue qs.low_queue e) h
push_back-Holds low e qs q h =
    under qs.high_queue _ _ q
      (under qs.normal_queue _ _ q (Any-append_left (P q) qs.low_queue (e ∷ []))) h

pub push_back_self :
    (priority : TaskPriority) (e : Entry) (qs : Queues)
    → Holds e.control (entries (push_back priority e qs))
unfolding push_back
push_back_self high e qs = inserted_end qs.high_queue (qs.normal_queue ++ qs.low_queue) e
push_back_self normal e qs =
    Any-append_right (P e.control) qs.high_queue _ (inserted_end qs.normal_queue qs.low_queue e)
push_back_self low e qs = Any-append_right (P e.control) qs.high_queue _ (
    Any-append_right (P e.control) qs.normal_queue _
      (Any-append_right (P e.control) qs.low_queue (e ∷ []) (inl refl)))

pub push_front-Holds :
    (priority : TaskPriority) (e : Entry) (qs : Queues) (q : ℕ)
    → Holds q (entries qs)
    → Holds q (entries (push_front priority e qs))
unfolding push_front
push_front-Holds high e qs q h = inr h
push_front-Holds normal e qs q h =
    insert_right q qs.high_queue (qs.normal_queue ++ qs.low_queue) e h
push_front-Holds low e qs q h =
    under qs.high_queue _ _ q (insert_right q qs.normal_queue qs.low_queue e) h

pub push_front_self :
    (priority : TaskPriority) (e : Entry) (qs : Queues)
    → Holds e.control (entries (push_front priority e qs))
unfolding push_front
push_front_self high e qs = inl refl
push_front_self normal e qs = inserted_right qs.high_queue (qs.normal_queue ++ qs.low_queue) e
push_front_self low e qs =
    Any-append_right (P e.control) qs.high_queue _ (inserted_right qs.normal_queue qs.low_queue e)

pub push_heap-Holds : (e : Entry) (es : List Entry) (q : ℕ) → Holds q es → Holds q (push_heap e es)
unfolding push_heap
push_heap-Holds e [] q h = absurd h
push_heap-Holds e (x ∷ es) q h = elim (Bool-cases (delayed_sooner e x)) [
  | inl t ↦ rw t (under (x ∷ []) es (push_heap e es) q (push_heap-Holds e es q) h)
  | inr t ↦ rw t (inr h)
]

pub push_heap_self : (e : Entry) (es : List Entry) → Holds e.control (push_heap e es)
unfolding push_heap
push_heap_self e [] = inl refl
push_heap_self e (x ∷ es) = elim (Bool-cases (delayed_sooner e x)) [
  | inl t ↦ rw t (inr (push_heap_self e es))
  | inr t ↦ rw t (inl refl)
]

-- Pruning leaves out entries of dead controls only.
pub prune_heap-Holds :
    (controls : ℕ → Control) (es : List Entry) (q : ℕ)
    → is_dead (controls q).state ≡ false
    → Holds q es
    → Holds q (prune_heap controls es)
unfolding prune_heap
prune_heap-Holds controls [] q live h = absurd h
prune_heap-Holds controls (e ∷ es) q live h =
    elim (Bool-cases (is_dead (controls e.control).state)) [
      | inl t ↦ rw t (prune_heap-Holds controls es q live (rest h t))
      | inr t ↦ rw t h
    ]
  where
    rest : Holds q (e ∷ es) → is_dead (controls e.control).state ≡ true → Holds q es
    rest (inl same) dead =
        let clash : is_dead (controls q).state ≡ true =
          subst (λ r. is_dead (controls r).state ≡ true) same dead in
        cc
    rest (inr h) dead = h
