-- ===== src/Webhooks/Gmail/Laws.antt =====
-- The list of a history's threads has each thread that concerns a project.
use mathlib.Core.Path.{subst}
use gb_automations.Base.{
  String, Bool, true, false, some, List, [], ◌∷◌, ◌++◌, ◌≡◌, refl, sym, arith, ◌&&◌, ◌⊎◌, inl, inr,
  not, keep_if, In, here, there, In-append_left, In-append_right, Bool-cases, truthy, present,
  str_eq, str_eq_iff,
}
use gb_automations.Queue.Threads.{sorted_set-In}
use gb_automations.Webhooks.Gmail.{
  Change, Entry, contains, is_filed, named, definite, candidates, thread_ids,
}

named-In :
    (test : Change → Bool) (cs : List Change) (c : Change) (tid : String)
    → In c cs
    → c.thread_id ≡ some tid
    → truthy tid ≡ true
    → test c ≡ true
    → In tid (named test cs)
unfolding named
named-In test [] c tid m e h t = elim m [ ]
named-In test (d ∷ ds) c tid (here q) e h t = rw (named, q, t, e, h) (here refl)
named-In test (d ∷ ds) c tid (there m) e h t = elim (Bool-cases (present d.thread_id && test d)) [
  | inl b ↦ rw (named, b) (there (named-In test ds c tid m e h t))
  | inr b ↦ rw (named, b) (named-In test ds c tid m e h t)
]

-- A change of the entry files the thread under a label of a project, or takes it from one.
abbrev pub Files : List String → Entry → String → Type 0
Files project e tid =
    (c : Change) × (In c e.messages_added ⊎ (In c e.labels_added ⊎ In c e.labels_removed))
    × (c.thread_id ≡ some tid)
    × (is_filed project c ≡ true)

Files-named :
    (project : List String) (e : Entry) (es : List Entry) (tid : String)
    → truthy tid ≡ true
    → Files project e tid
    → In tid (definite project (e ∷ es))
unfolding definite
Files-named project e es tid h (c, inl m, i, f) = In-append_left (definite project es) (
    In-append_left (named (is_filed project) e.labels_removed) (
      In-append_left (named (is_filed project) e.labels_added)
        (named-In (is_filed project) e.messages_added c tid m i h f)))
Files-named project e es tid h (c, inr (inl m), i, f) = In-append_left (definite project es) (
    In-append_left (named (is_filed project) e.labels_removed) (
      In-append_right (named (is_filed project) e.messages_added)
        (named-In (is_filed project) e.labels_added c tid m i h f)))
Files-named project e es tid h (c, inr (inr m), i, f) = In-append_left (definite project es) (
    In-append_right
      (named (is_filed project) e.messages_added ++ named (is_filed project) e.labels_added)
      (named-In (is_filed project) e.labels_removed c tid m i h f))

definite-In :
    (project : List String) (history : List Entry) (e : Entry) (tid : String)
    → In e history
    → truthy tid ≡ true
    → Files project e tid
    → In tid (definite project history)
unfolding definite
definite-In project [] e tid m h f = elim m [ ]
definite-In project (x ∷ es) e tid (here q) h f =
    Files-named project x es tid h (subst (λ y. Files project y tid) (sym q) f)
definite-In project (x ∷ es) e tid (there m) h f =
    In-append_right
      (named (is_filed project) x.messages_added
        ++ named (is_filed project) x.labels_added
        ++ named (is_filed project) x.labels_removed)
      (definite-In project es e tid m h f)

candidates-In :
    (project : List String) (history : List Entry) (e : Entry) (c : Change) (tid : String)
    → In e history
    → In c e.messages_added
    → c.thread_id ≡ some tid
    → truthy tid ≡ true
    → is_filed project c ≡ false
    → In tid (candidates project history)
unfolding candidates
candidates-In project [] e c tid m n i h f = elim m [ ]
candidates-In project (x ∷ es) e c tid (here q) n i h f = In-append_left (candidates project es) (
    named-In (λ d. not (is_filed project d)) x.messages_added c tid
      (subst (λ (y : Entry). In c y.messages_added) (sym q) n) i h (rw f refl))
candidates-In project (x ∷ es) e c tid (there m) n i h f =
    In-append_right (named (λ d. not (is_filed project d)) x.messages_added)
      (candidates-In project es e c tid m n i h f)

pub keep_if-In :
    (p : String → Bool) (ts : List String) (t : String) → In t ts → p t ≡ true → In t (keep_if p ts)
keep_if-In p [] t m h = elim m [ ]
keep_if-In p (x ∷ xs) t (here q) h = rw (q, h) (here refl)
keep_if-In p (x ∷ xs) t (there m) h = elim (Bool-cases (p x)) [
  | inl b ↦ rw b (there (keep_if-In p xs t m h))
  | inr b ↦ rw b (keep_if-In p xs t m h)
]

contains-In : (ls : List String) (t : String) → contains ls t ≡ true → In t ls
contains-In [] t h = ground arith
contains-In (l ∷ ls) t h = elim (Bool-cases (str_eq t l)) [
  | inl b ↦ here (sym ((str_eq_iff t l).0 b))
  | inr b ↦ there (contains-In ls t (rw b at h))
]

-- A thread that the history files under a project, or a reply to a thread that is known, is on the list.
abbrev pub Wanted : (String → Bool) → List String → List Entry → String → Type 0
Wanted is_known project history tid =
    (e : Entry) × In e history
    × (Files project e tid
        ⊎ ((c : Change) × In c e.messages_added × (c.thread_id ≡ some tid) × (is_known tid ≡ true)))

pub thread_ids-In :
    (is_known : String → Bool) (project : List String) (history : List Entry) (tid : String)
    → truthy tid ≡ true
    → Wanted is_known project history tid
    → In tid (thread_ids is_known project history)
unfolding thread_ids
thread_ids-In is_known project history tid h (e, m, inl f) =
    sorted_set-In _ h (In-append_left _ (definite-In project history e tid m h f))
thread_ids-In is_known project history tid h (e, m, inr (c, n, i, k)) =
    elim (Bool-cases (is_filed project c)) [
      | inl f ↦
          sorted_set-In _ h
            (In-append_left _ (definite-In project history e tid m h (c, inl n, i, f)))
      | inr f ↦ elim (Bool-cases (contains (definite project history) tid)) [
        | inl d ↦
            sorted_set-In _ h (In-append_left _ (contains-In (definite project history) tid d))
        | inr d ↦ sorted_set-In _ h (
            In-append_right (definite project history) (
              keep_if-In (λ t. not (contains (definite project history) t) && is_known t)
                (candidates project history) tid (candidates-In project history e c tid m n i h f)
                (rw (d, k) refl)))
      ]
    ]
