-- ===== src/Timeline/Segments/Counts.antt =====
-- About the counts that the parser keeps beside its observations.
use text.Mathlib.Text.{◌==◌ as str_eq}
use roadbook.Prelude.{
  ◌+◌, ◌≡◌, inl, inr, List, [], ◌∷◌, ◌++◌, Option, none, some, length, foldl, length-append,
  Bool-cases, Option-cases, arith,
}
use roadbook.Times.{Time}
use roadbook.Timeline.Codec.{Codec, RawVisit, RawActivity, RawPoint, RawSegment, RawFix}
use roadbook.Timeline.Segments.{
  Seen, skip, process_segment, process_signal, put_visit, put_activity, put_point, put_point_at,
  put_fix_at,
}

-- Each count is the length of its list.
pub record IsCounted {F : Type 0} (s : Seen F) : Type 0 where
  pub visits : s.st.visits ≡ length s.obs.visits
  pub activities : s.st.activities ≡ length s.obs.activities
  pub points : s.st.points ≡ length s.obs.points
  pub raw_positions : s.st.raw_positions ≡ length s.obs.raw_positions

length-snoc {ℓ} : {A : Type ℓ} (xs : List A) (x : A) → length (xs ++ (x ∷ [])) ≡ length xs + 1
length-snoc xs x = length-append xs (x ∷ [])

pub skip-IsCounted : {F : Type 0} (s : Seen F) → IsCounted s → IsCounted (skip s)
skip-IsCounted s c = record {
  visits = c.visits;
  activities = c.activities;
  points = c.points;
  raw_positions = c.raw_positions;
}

module _ {F : Type 0} (codec : Codec F) where
  put_visit-IsCounted :
      (s : Seen F) (v : RawVisit) (a b : Option Time)
      → IsCounted s
      → IsCounted (put_visit codec s v a b)
  put_visit-IsCounted s v none b c = skip-IsCounted s c
  put_visit-IsCounted s v (some a) none c = skip-IsCounted s c
  put_visit-IsCounted s v (some a) (some b) c = record {
    visits = omega (arith, c.visits, length-snoc s.obs.visits _);
    activities = c.activities;
    points = c.points;
    raw_positions = c.raw_positions;
  }

  put_activity-IsCounted :
      (s : Seen F) (v : RawActivity F) (a b : Option Time)
      → IsCounted s
      → IsCounted (put_activity codec s v a b)
  put_activity-IsCounted s v none b c = skip-IsCounted s c
  put_activity-IsCounted s v (some a) none c = skip-IsCounted s c
  put_activity-IsCounted s v (some a) (some b) c = record {
    visits = c.visits;
    activities = omega (arith, c.activities, length-snoc s.obs.activities _);
    points = c.points;
    raw_positions = c.raw_positions;
  }

  put_point_at-IsCounted :
      (s : Seen F) (pt : RawPoint) (t : Option Time)
      → IsCounted s
      → IsCounted (put_point_at codec s pt t)
  put_point_at-IsCounted s pt none c = skip-IsCounted s c
  put_point_at-IsCounted s pt (some t) c = record {
    visits = c.visits;
    activities = c.activities;
    points = omega (arith, c.points, length-snoc s.obs.points _);
    raw_positions = c.raw_positions;
  }

  put_path-IsCounted :
      (s : Seen F) (pts : List RawPoint) → IsCounted s → IsCounted (foldl (put_point codec) s pts)
  unfolding put_point
  put_path-IsCounted s [] c = c
  put_path-IsCounted s (pt ∷ pts) c = elim (Bool-cases (str_eq pt.time "")) [
    | inl e ↦ rw e (put_path-IsCounted (skip s) pts (skip-IsCounted s c))
    | inr e ↦ rw e (put_path-IsCounted _ pts (put_point_at-IsCounted s pt (codec.time pt.time) c))
  ]

  pub process_segment-IsCounted :
      (s : Seen F) (seg : RawSegment F) → IsCounted s → IsCounted (process_segment codec s seg)
  unfolding process_segment
  process_segment-IsCounted s seg c = elim (Option-cases seg.visit) [
    | inr (v, e) ↦ rw (e, process_segment) (put_visit-IsCounted s v _ _ c)
    | inl e ↦ elim (Option-cases seg.activity) [
      | inr (a, f) ↦ rw (e, f, process_segment) (put_activity-IsCounted s a _ _ c)
      | inl f ↦ elim (Option-cases seg.timeline_path) [
        | inl g ↦ rw (e, f, g, process_segment) c
        | inr (pts, g) ↦ rw (e, f, g, process_segment) (put_path-IsCounted s pts c)
      ]
    ]
  ]

  put_fix_at-IsCounted :
      (s : Seen F) (p : RawFix F) (t : Option Time)
      → IsCounted s
      → IsCounted (put_fix_at codec s p t)
  put_fix_at-IsCounted s p none c = skip-IsCounted s c
  put_fix_at-IsCounted s p (some t) c = record {
    visits = c.visits;
    activities = c.activities;
    points = c.points;
    raw_positions = omega (arith, c.raw_positions, length-snoc s.obs.raw_positions _);
  }

  pub process_signal-IsCounted :
      (s : Seen F) (sig : Option (RawFix F)) → IsCounted s → IsCounted (process_signal codec s sig)
  unfolding process_signal
  process_signal-IsCounted s none c = c
  process_signal-IsCounted s (some p) c = put_fix_at-IsCounted s p (codec.time p.timestamp) c
