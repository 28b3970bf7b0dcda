-- ===== src/Util/LinkList/Tests.antt =====
-- Runs of the list operations, and their theorems at concrete lists.
use libpeli.Util.LinkList.Dequeue.{dequeue_ends_lem, Dropped}
use libpeli.Util.LinkList.{
  enqueue_head, dequeue_tail, dequeue_head, LinkList, Store, no_link, update, enqueue_tail, dequeue,
  read, write, write_next, write_prev,
}
use libpeli.Util.LinkList.Enqueue.{enqueue_lem, Enqueued}
use libpeli.Base.{false, ℕ, ◌≡◌, refl, [], ◌∷◌, some, arith}
use libpeli.Util.LinkList.Chain.{has, Holds}

-- Three objects in order.
abbrev three : Store
three =
    update
      (update (update (λ _. no_link) 8 (record { next = 16; prev = 0 })) 16
        (record { next = 24; prev = 8 }))
      24 (record { next = 0; prev = 16 })

abbrev three_list : LinkList
three_list = record { head = 8; tail = 24 }

three-Holds : Holds three three_list (8 ∷ 16 ∷ 24 ∷ [])
unfolding update
three-Holds = ground arith

enqueue_lem_example :
    Enqueued three 40 (8 ∷ 16 ∷ 24 ∷ []) (enqueue_tail 40 three three_list) (8 ∷ 16 ∷ 24 ∷ 40 ∷ [])
    × Enqueued three 40
        (8 ∷ 16 ∷ 24 ∷ [])
        (enqueue_head 40 three three_list)
        (40 ∷ 8 ∷ 16 ∷ 24 ∷ [])
enqueue_lem_example =
    enqueue_lem three three_list 40 (8 ∷ 16 ∷ 24 ∷ []) three-Holds (omega arith) refl

-- Removing the last object leaves the tail on it.
after_removal : Store
after_removal = update three 16 (record { next = 0; prev = 8 })

removes_last : dequeue 24 three three_list ≡ some (after_removal, three_list)
unfolding dequeue update read write write_next write_prev after_removal
removes_last = refl

dequeue_ends_lem_example :
    ((s' : Store) × (l' : LinkList) × (dequeue_head three three_list ≡ some (8, s', l'))
      × Holds s' l' (16 ∷ 24 ∷ [])
      × ((a : ℕ) → has a (16 ∷ 24 ∷ []) ≡ false → s' a ≡ three a))
    × Dropped three (dequeue 8 three three_list) (16 ∷ 24 ∷ [])
    × ((s' : Store) × (l' : LinkList) × (dequeue_tail three three_list ≡ some (24, s', l'))
        × Holds s' l' (8 ∷ 16 ∷ [])
        × ((a : ℕ) → has a (8 ∷ 16 ∷ []) ≡ false → s' a ≡ three a))
dequeue_ends_lem_example =
    dequeue_ends_lem three three_list 8 24 (16 ∷ 24 ∷ []) (8 ∷ 16 ∷ []) three-Holds refl
