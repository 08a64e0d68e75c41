-- ===== src/Cleanup/Grouping.antt =====
-- The map of the clusters that `Apply` goes through.
use natsie.Base.{
  String, List, [], ◌∷◌, ◌++◌, ◌==◌, string_eq, keep, ◌≡◌, refl, sym, ap, ◌∙◌, arith, In, inl, inr,
  Bool-cases, Bool,
}
use mathlib.Core.List.{append_assoc, append-nil}
use natsie.Manifest.{Entry}
use natsie.Cleanup.{Groups, add_entry, group_from, by_cluster, entries_of}

abbrev pub is_of : String → Entry → Bool
is_of c e = e.cluster == c

keep-cons :
    (c : String) (e : Entry) (es : List Entry)
    → keep (is_of c) (e ∷ []) ++ keep (is_of c) es ≡ keep (is_of c) (e ∷ es)
keep-cons c e es = elim (Bool-cases (is_of c e)) [ inl t ↦ rw t refl | inr f ↦ rw f refl ]

entries_of-add_entry :
    (c : String) (e : Entry) (gs : Groups)
    → entries_of c (add_entry e gs) ≡ entries_of c gs ++ keep (is_of c) (e ∷ [])
unfolding entries_of add_entry
entries_of-add_entry c e [] = ground arith
entries_of-add_entry c e ((d, es) ∷ gs) =
    ground (arith, entries_of-add_entry c e gs, append-nil es, append-nil (entries_of c gs))

entries_of-group_from :
    (c : String) (gs : Groups) (es : List Entry)
    → entries_of c (group_from gs es) ≡ entries_of c gs ++ keep (is_of c) es
unfolding group_from
entries_of-group_from c gs [] = sym (append-nil (entries_of c gs))
entries_of-group_from c gs (e ∷ es) =
    entries_of-group_from c (add_entry e gs) es
    ∙ ap (λ l. l ++ keep (is_of c) es) (entries_of-add_entry c e gs)
    ∙ append_assoc (entries_of c gs) (keep (is_of c) (e ∷ [])) (keep (is_of c) es)
    ∙ ap (λ l. entries_of c gs ++ l) (keep-cons c e es)

-- The key of a cluster holds its entries of the manifest, in their order.
pub entries_of-by_cluster :
    (c : String) (es : List Entry) → entries_of c (by_cluster es) ≡ keep (is_of c) es
unfolding by_cluster entries_of
entries_of-by_cluster c es = entries_of-group_from c [] es

pub In-keep :
    (c : String) (e : Entry) (es : List Entry) → In e es → e.cluster ≡ c → In e (keep (is_of c) es)
In-keep c e [] h k = absurd h
In-keep c e (x ∷ es) (inl same) k = ground arith
In-keep c e (x ∷ es) (inr h) k = ground (arith, In-keep c e es h k)
