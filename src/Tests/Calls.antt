-- ===== src/Tests/Calls.antt =====
-- An interpreter that counts the references the program holds, and the theorems on the calls of a
-- script at it.
use packet_replay.Base.{
  ℕ, ◌+◌, ◌-◌, ◌≤◌, ◌≡◌, refl, ap, sym, subst, some-injective, Bool, true, false, Option, none,
  some, ok, err, fault, codes, ◌==◌, if◌then◌else◌, arith, Bool-cases, inl, inr,
}
use packet_replay.Python.{Python, FilePath, PythonCall, validate_call, new_call, destroy_call}
use packet_replay.Python.Counts.{IsCounted, IsGiven, validate_over_releases, destroy-new}

abbrev Held : Type 0
Held = ℕ → ℕ

abbrev one_at : ℕ → ℕ → ℕ
one_at o r = if o == r then 1 else 0

abbrev with_one : ℕ → Held → Held
with_one r s o = s o + one_at o r

abbrev give : ℕ → Held → Option ℕ × Held
give r s = (some r, with_one r s)

abbrev take_back : ℕ → Held → Held
take_back r s o = s o - one_at o r

abbrev held : ℕ → Held → ℕ
held o s = s o

abbrev true_object : ℕ
true_object = 5

abbrev answers : Option ℕ → Held → Option ℕ × Held
answers none s = (none, s)
answers (some r) s = give r s

abbrev built : Bool → Held → Option ℕ × Held
built true s = give 4 s
built false s = (none, s)

-- The answer of the function is an argument. There is one tuple of arguments at a time.
abbrev interpreter : Option ℕ → Python Held
interpreter answer = record {
  initialize = λ s. s;
  finalize = λ s. s;
  run_simple_string = λ x s. s;
  print_error = λ s. s;
  unicode_from_string = λ x s. give 1 s;
  import_module = λ n s. give 2 s;
  get_attr_string = λ m x s. give 3 s;
  build_value = λ x y s. built (s 4 == 0) s;
  call_object = λ f a s. answers answer s;
  is_bool = λ o. o == true_object;
  py_true = true_object;
  decref = λ o s. if s o == 0 then err fault else ok (take_back o s);
}

module _ (answer : Option ℕ) where
  built-IsGiven : (b : Bool) (s : Held) → IsGiven (interpreter answer) held s (built b s)
  built-IsGiven true s = λ o. refl
  built-IsGiven false s = λ o. refl

  answers-IsGiven : (a : Option ℕ) (s : Held) → IsGiven (interpreter answer) held s (answers a s)
  answers-IsGiven none s = λ o. refl
  answers-IsGiven (some r) s = λ o. refl

  built_new :
      (b : Bool) (s t : Held) (args : ℕ)
      → (s 4 == 0) ≡ b
      → built b s ≡ (some args, t)
      → (s args ≡ 0) × ((args == true_object) ≡ false)
  built_new true s t args e h = built_four args (some-injective (ap (λ x. x.0) h))
    where
      built_four : (a : ℕ) → 4 ≡ a → (s a ≡ 0) × ((a == true_object) ≡ false)
      built_four a f = subst (λ x. (s x ≡ 0) × ((x == true_object) ≡ false)) f (ground arith, refl)
  built_new false s t args e h = absurd cc

  taken : (o x : ℕ) (s : Held) → 1 ≤ s o → s x ≡ take_back o s x + one_at x o
  taken o x s h = elim (Bool-cases (x == o)) [
    | inl e ↦ rw e (positive (s x) (subst (λ y. 1 ≤ s y) (sym (same e)) h))
    | inr e ↦ rw e (omega arith)
  ]
    where
      same : (x == o) ≡ true → x ≡ o
      same e = ground arith

      positive : (n : ℕ) → 1 ≤ n → n ≡ n - 1 + 1
      positive n k = omega arith

  interpreter-IsCounted : IsCounted (interpreter answer) held
  interpreter-IsCounted = record {
    run_same = λ x s o. refl;
    print_same = λ s o. refl;
    unicode_given = λ x s o. refl;
    import_given = λ n s o. refl;
    attr_given = λ m x s o. refl;
    build_given = λ x y s. built-IsGiven (s 4 == 0) s;
    build_new = λ x y s t args e. built_new (s 4 == 0) s t args refl e;
    call_given = λ f args s. answers-IsGiven answer s;
    decref_owned = λ o s h. (take_back o s, ground arith, λ x. taken o x s h);
    decref_free = λ o s h. rw h refl;
  }

abbrev nothing : Held
nothing o = 0

abbrev script : FilePath
script = record { parent_path = codes "scripts"; stem = codes "dns"; extension = codes ".py" }

abbrev compare_call : PythonCall
compare_call = record { py_func = some 3; func_name = codes "compare" }

validate_over_releases_example :
    (validate_call (interpreter (some true_object)) compare_call (codes "a") (codes "b") nothing).0
    ≡ err fault
validate_over_releases_example =
    validate_over_releases (interpreter (some true_object)) held
      (interpreter-IsCounted (some true_object)) compare_call (codes "a") (codes "b") nothing
      (with_one 4 nothing) (with_one 5 (with_one 4 nothing)) 4 5 refl refl refl

destroy-new_example :
    (w z : Held) × (new_call (interpreter none) script (codes "compare") nothing
      ≡ (ok compare_call, w))
    × (destroy_call (interpreter none) compare_call w ≡ ok z)
    × ((o : ℕ) → z o ≡ 0)
destroy-new_example =
    destroy-new (interpreter none) held (interpreter-IsCounted none) script (codes "compare")
      nothing (with_one 1 nothing) (with_one 2 (with_one 1 nothing))
      (with_one 3 (with_one 2 (with_one 1 nothing))) 1 2 3 refl refl refl refl
