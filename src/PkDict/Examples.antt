-- ===== src/PkDict/Examples.antt =====
-- Two threads intern the same key: both read, both miss, and both take the write lock.
use electric_circuits.Prelude.{
  ℕ, ◌≡◌, ◌↔◌, ◌≤◌, refl, some, [], ◌∷◌, length, get_elem?, lookup, insert, arith, list_ord,
  nat_ord,
}
use electric_circuits.Value.{Text}
use electric_circuits.PkDict.Intern.{new, mint}
use electric_circuits.PkDict.Threads.{
  missed, returned, Shared, Step, Reach, set_call, initial, returned_agree, returned_resolves,
}

abbrev a_key : Text
a_key = b'k' ∷ []

abbrev first : ℕ
first = 0

abbrev one_key : ℕ → Text
one_key t = a_key

abbrev after_reads : Shared
after_reads = record {
  dict = new;
  calls = set_call 1 (missed a_key) (set_call 0 (missed a_key) (initial one_key).calls);
}

abbrev after_writes : Shared
after_writes = record {
  dict = (mint a_key (mint a_key new).1).1;
  calls =
      set_call 1 (returned a_key (mint a_key (mint a_key new).1).0)
        (set_call 0 (returned a_key (mint a_key new).0) after_reads.calls);
}

reads : Reach (initial one_key) after_reads
unfolding new lookup
reads =
    Reach.next (Reach.next Reach.start (Step.read_miss 0 a_key refl refl))
      (Step.read_miss 1 a_key refl refl)

writes : Reach (initial one_key) after_writes
unfolding new mint lookup insert
writes = Reach.next (Reach.next reads (Step.write 0 a_key refl)) (Step.write 1 a_key refl)

first_id : after_writes.calls 0 ≡ returned a_key 0
unfolding new mint lookup insert
first_id = refl

second_id : after_writes.calls 1 ≡ returned a_key 0
unfolding new mint lookup insert
second_id = refl

one_entry : length after_writes.dict.reverse ≤ 4294967296
unfolding new mint lookup insert
one_entry = omega arith

returned_agree_example : (a_key ≡ a_key) ↔ (first ≡ first)
returned_agree_example =
    returned_agree one_key after_writes 0 1 a_key a_key first first writes first_id second_id
      one_entry

returned_resolves_example : get_elem? after_writes.dict.reverse 0 ≡ some a_key
returned_resolves_example =
    returned_resolves one_key after_writes after_writes 0 a_key 0 writes first_id Reach.start
      one_entry
