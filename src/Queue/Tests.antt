-- ===== src/Queue/Tests.antt =====
-- The queue at concrete inputs.
use php_pecl_memcache_zynga.Prelude.{◌≡◌, refl, ◌++◌, List, [], ◌∷◌, arith}
use php_pecl_memcache_zynga.Queue.{Queue, item, memmove, push, pop, remove}
use php_pecl_memcache_zynga.Queue.Ends.{IsValid, push-IsValid}
use php_pecl_memcache_zynga.Queue.Refine.{contents, contents-push, pop_list, pop_refines}
use php_pecl_memcache_zynga.Queue.Remove.{up_to_null, without, remove_refines}
use php_pecl_memcache_zynga.Queue.Client.{
  run, run_list, run_refines, push_op, pop_op, remove_op, contains_op, Op,
}
use php_pecl_memcache_zynga.Queue.{contains}
use php_pecl_memcache_zynga.Queue.Refine.{contains_refines, contents, elem}

-- a full block of three cells whose items stand round its end: 10, 11, 12
abbrev full : Queue
full = record { items = 11 ∷ 12 ∷ 10 ∷ []; alloc = 3; head = 1; tail = 2; len = 3 }

full-IsValid : IsValid full
full-IsValid = ground arith

abbrev script : List Op
script = push_op 13 ∷ contains_op 13 ∷ remove_op 11 ∷ pop_op ∷ pop_op ∷ pop_op ∷ pop_op ∷ []

contents-full : contents full ≡ 10 ∷ 11 ∷ 12 ∷ []
unfolding item
contents-full = refl

grown_round_the_end : contents (push 7 full 13) ≡ 10 ∷ 11 ∷ 12 ∷ 13 ∷ []
unfolding item push memmove
grown_round_the_end = refl

push-IsValid_example : IsValid (push 7 full 13)
push-IsValid_example = push-IsValid 7 13 full-IsValid

contents-push_example : contents (push 7 full 13) ≡ contents full ++ (13 ∷ [])
contents-push_example = contents-push 7 full 13 full-IsValid

pop_refines_example : ((pop full).0, contents (pop full).1) ≡ pop_list (contents full)
pop_refines_example = pop_refines full full-IsValid

remove_refines_example :
    IsValid (remove 7 full 11)
    × (contents (remove 7 full 11) ≡ without 11 (up_to_null (contents full)))
remove_refines_example = remove_refines 7 full 11 full-IsValid

run_refines_example : run 7 full script ≡ run_list (contents full) script
run_refines_example = run_refines 7 script full full-IsValid

contains_refines_example : contains full 11 ≡ elem 11 (contents full)
contains_refines_example = contains_refines full 11
