-- ===== src/Profiling/Nesting.antt =====
-- The regions that open_regions and close_regions mark are nested (software/libstf/profiling.cpp lines
-- 40-55).
use libstf.Base.{
  ◌≡◌, refl, ap, ◌∙◌, Bool, true, false, ◌&&◌, Option, none, some, List, [], ◌∷◌, ◌++◌, ◌==◌,
  append_assoc, eq→==, if◌then◌else◌,
}
use libstf.Logging.{Text}
use libstf.Profiling.{
  Call, config_set, new_manager, add, start, flush, mark_begin, mark_end, Profiler, open_regions,
  close_regions,
}

abbrev same_text : Text → Text → Bool
same_text [] [] = true
same_text [] (d ∷ ds) = false
same_text (c ∷ cs) [] = false
same_text (c ∷ cs) (d ∷ ds) = (c == d) && same_text cs ds

same_text_self : (t : Text) → same_text t t ≡ true
same_text_self [] = refl
same_text_self (c ∷ cs) = rw (eq→== c c refl) (same_text_self cs)

-- The end of a region that is the innermost one, or `none` where it is not.
abbrev pub end_region : Text → List Text → Option (List Text)
end_region region [] = none
end_region region (innermost ∷ outer) = if same_text region innermost then some outer else none

-- The regions that are open after the calls, innermost first, or `none` where one was ended that is
-- not the innermost.
abbrev pub replay : List Call → Option (List Text) → Option (List Text)
replay calls none = none
replay [] (some open_ones) = some open_ones
replay (mark_begin region ∷ calls) (some open_ones) = replay calls (some (region ∷ open_ones))
replay (mark_end region ∷ calls) (some open_ones) = replay calls (end_region region open_ones)
replay (config_set k v ∷ calls) (some open_ones) = replay calls (some open_ones)
replay (new_manager ∷ calls) (some open_ones) = replay calls (some open_ones)
replay (add p ∷ calls) (some open_ones) = replay calls (some open_ones)
replay (start ∷ calls) (some open_ones) = replay calls (some open_ones)
replay (flush ∷ calls) (some open_ones) = replay calls (some open_ones)

replay-append :
    (xs ys : List Call) (o : Option (List Text)) → replay (xs ++ ys) o ≡ replay ys (replay xs o)
replay-append xs ys none = refl
replay-append [] ys (some o) = refl
replay-append (mark_begin region ∷ xs) ys (some o) = replay-append xs ys (some (region ∷ o))
replay-append (mark_end region ∷ xs) ys (some o) = replay-append xs ys (end_region region o)
replay-append (config_set k v ∷ xs) ys (some o) = replay-append xs ys (some o)
replay-append (new_manager ∷ xs) ys (some o) = replay-append xs ys (some o)
replay-append (add p ∷ xs) ys (some o) = replay-append xs ys (some o)
replay-append (start ∷ xs) ys (some o) = replay-append xs ys (some o)
replay-append (flush ∷ xs) ys (some o) = replay-append xs ys (some o)

-- From `p` to `q` calls were made that end what they begin, each region as the innermost one, and leave
-- open what was open.
pub record Balanced (p q : Profiler) : Type 0 where
  pub made : List Call
  pub calls : q.calls ≡ p.calls ++ made
  pub nested : (open_ones : List Text) → replay made (some open_ones) ≡ some open_ones

Balanced-region :
    (region : Text) (p q : Profiler)
    → Balanced (record { calls = p.calls ++ (mark_begin region ∷ []) }) q
    → Balanced p (record { calls = q.calls ++ (mark_end region ∷ []) })
Balanced-region region p q inner = record {
  made = mark_begin region ∷ (inner.made ++ (mark_end region ∷ []));
  calls =
      ap (λ c. c ++ (mark_end region ∷ [])) inner.calls
      ∙ append_assoc (p.calls ++ (mark_begin region ∷ [])) inner.made (mark_end region ∷ [])
      ∙ append_assoc p.calls (mark_begin region ∷ []) (inner.made ++ (mark_end region ∷ []));
  nested = λ o.
      replay-append inner.made (mark_end region ∷ []) (some (region ∷ o))
      ∙ ap (replay (mark_end region ∷ [])) (inner.nested (region ∷ o))
      ∙ rw (same_text_self region, replay) refl;
}

-- With profiling or without: where what is called between open_regions and close_regions of the same
-- regions ends the regions that it begins, so does the whole, each region as the innermost one.
pub open-close-Balanced :
    (with_profiling : Bool) (regions : List Text) (p q : Profiler)
    → Balanced (open_regions with_profiling regions p) q
    → Balanced p (close_regions with_profiling regions q)
unfolding open_regions close_regions
open-close-Balanced with_profiling [] p q inner = inner
open-close-Balanced true (region ∷ regions) p q inner =
    Balanced-region region p (close_regions true regions q) (
      open-close-Balanced true regions (record { calls = p.calls ++ (mark_begin region ∷ []) }) q
        inner)
open-close-Balanced false (region ∷ regions) p q inner = open-close-Balanced false regions p q inner
