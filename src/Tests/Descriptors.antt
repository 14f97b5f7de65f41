-- ===== src/Tests/Descriptors.antt =====
-- A descriptor table as a function, on which `dup` hands out number 9.
use ada_interfaces.Base.{
  ℕ, ◌≡◌, ◌≢◌, refl, Bool, true, false, ◌==◌, if◌then◌else◌, ℤ, pos, negsuc, minus_one, arith,
}
use ada_interfaces.Linux.Descriptor.{Calls, gneiss_close}
use ada_interfaces.Linux.Descriptor.Table.{DescriptorLaws}
use ada_interfaces.Linux.Descriptor.Close.{gneiss_close-outcome}

abbrev Table : Type 0
Table = ℕ → Bool

abbrev put : ℕ → Bool → Table → Table
put n b w m = if m == n then b else w m

abbrev close_at : ℤ → Table → ℤ × Table
close_at (pos n) w = (pos 0, put n false w)
close_at (negsuc n) w = (minus_one, w)

abbrev dup_to : Bool → Table → ℤ × Table
dup_to true w = (minus_one, w)
dup_to false w = (pos 9, put 9 true w)

abbrev kernel : Calls Table
kernel = record {
  socketpair = λ w. ((pos 0, pos 20, pos 21), w);
  fork = λ w. (pos 100, w);
  close = close_at;
  waitpid = λ pid status w. ((pos 0, status), w);
  wexitstatus = λ s. s;
  dup = λ fd w. dup_to (w 9) w;
  openfile = λ path access w. (minus_one, w);
  timerfd_create = λ w. (minus_one, w);
  warn = λ c w. (tt, w);
}

dup_cases :
    (b : Bool) (n : ℕ) (w : Table)
    → w 9 ≡ b
    → (dup_to b w).0 ≡ pos n
    → (w n ≡ false) × ((dup_to b w).1 n ≡ true)
dup_cases true n w e h = cc
dup_cases false n w e h = ground arith

dup_others : (b : Bool) (m : ℕ) (w : Table) → (dup_to b w).0 ≢ pos m → (dup_to b w).1 m ≡ w m
dup_others true m w h = refl
dup_others false m w h = ground arith

abbrev laws : DescriptorLaws kernel
laws = record {
  is_open = λ n w. w n;
  close_self = λ n w. ground arith;
  close_other = λ n m w h. ground arith;
  dup_fresh = λ fd n w h. (dup_cases (w 9) n w refl h).0;
  dup_opens = λ fd n w h. (dup_cases (w 9) n w refl h).1;
  dup_other = λ fd m w h. dup_others (w 9) m w h;
  warn_same = λ c n w. refl;
}

abbrev table : Table
table n = if n == 3 then true else n == 4

abbrev closed : ℤ × Table
closed = gneiss_close kernel (pos 3) table

gneiss_close-outcome_example :
    (closed.0 ≡ minus_one)
    × (closed.1 3 ≡ false)
    × ((m : ℕ) → m ≢ 3 → closed.1 m ≡ table m)
    × (gneiss_close kernel closed.0 closed.1 ≡ closed)
gneiss_close-outcome_example = gneiss_close-outcome kernel laws 3 table
