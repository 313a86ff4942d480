-- ===== src/LoopPath/History.antt =====
-- lib/state.h: a loop's path stands for the sequence of symbols and powers that were appended to it.
use arith_exe.Prelude.{
  ◌≡◌, refl, sym, ap, ◌∙◌, Option, none, some, List, [], ◌∷◌, ◌++◌, append-nil, append_assoc,
}
use arith_exe.PathExpression.Word.{PathSymbol, PathWord}
use arith_exe.LoopPath.{
  SymbolicPathPower, ExactPathPrefixSegment, append, append_symbolic_power, concrete_frontier,
}

module _ (Exponent : Type 0) where
  -- A symbol or a symbolic power, in the order of the path.
  pub data Event : Type 0 where
    symbol : PathSymbol → Event
    power : PathWord → Exponent → Event

  abbrev pub Segments : Type 0
  Segments = List (ExactPathPrefixSegment Exponent)

  abbrev pub record_event : Segments → Event → Segments
  record_event prefix (symbol s) = append Exponent prefix s
  record_event prefix (power root exponent) = append_symbolic_power Exponent prefix root exponent

  -- The prefix after a sequence of events.
  abbrev pub replay : Segments → List Event → Segments
  replay prefix [] = prefix
  replay prefix (e ∷ es) = replay (record_event prefix e) es

  abbrev symbols_of : PathWord → List Event
  symbols_of [] = []
  symbols_of (s ∷ w) = symbol s ∷ symbols_of w

  -- The events that a segment stands for.
  abbrev segment_events : ExactPathPrefixSegment Exponent → List Event
  segment_events segment = elim segment.symbolic_power [
    | none ↦ symbols_of segment.explicit_word
    | some p ↦ symbols_of segment.explicit_word ++ power p.root p.exponent ∷ []
  ]

  abbrev pub events : Segments → List Event
  events [] = []
  events (segment ∷ prefix) = segment_events segment ++ events prefix

  -- The symbols since the last power, after those in `word`.
  abbrev pub since_power : PathWord → List Event → PathWord
  since_power word [] = word
  since_power word (symbol s ∷ es) = since_power (word ++ s ∷ []) es
  since_power word (power root exponent ∷ es) = since_power [] es

  symbols_of-snoc :
      (w : PathWord) (s : PathSymbol) → symbols_of (w ++ s ∷ []) ≡ symbols_of w ++ symbol s ∷ []
  symbols_of-snoc [] s = refl
  symbols_of-snoc (x ∷ w) s = ap (λ es. symbol x ∷ es) (symbols_of-snoc w s)

  events-append :
      (prefix : Segments) (s : PathSymbol)
      → events (append Exponent prefix s) ≡ events prefix ++ symbol s ∷ []
  unfolding append
  events-append [] s = refl
  events-append (back ∷ []) s = by_power back.explicit_word back.symbolic_power
    where
      by_power :
          (w : PathWord) (p : Option (SymbolicPathPower Exponent))
          → events (append Exponent (record { explicit_word = w; symbolic_power = p } ∷ []) s)
            ≡ events (record { explicit_word = w; symbolic_power = p } ∷ []) ++ symbol s ∷ []
      by_power w none =
          rw
            (
              symbols_of-snoc w s,
              append-nil (symbols_of w),
              append-nil (symbols_of w ++ symbol s ∷ []),
            )
            refl
      by_power w (some p) = rw (append-nil (symbols_of w ++ power p.root p.exponent ∷ [])) refl
  events-append (first ∷ second ∷ prefix) s =
      ap (λ es. segment_events first ++ es) (events-append (second ∷ prefix) s)
      ∙ sym (append_assoc (segment_events first) (events (second ∷ prefix)) (symbol s ∷ []))

  events-append_power :
      (prefix : Segments) (root : PathWord) (exponent : Exponent)
      → events (append_symbolic_power Exponent prefix root exponent)
        ≡ events prefix ++ power root exponent ∷ []
  unfolding append_symbolic_power
  events-append_power [] root exponent = refl
  events-append_power (first ∷ prefix) root exponent =
      ap (λ es. segment_events first ++ es) (events-append_power prefix root exponent)
      ∙ sym (append_assoc (segment_events first) (events prefix) (power root exponent ∷ []))

  frontier-append :
      (prefix : Segments) (s : PathSymbol)
      → concrete_frontier Exponent (append Exponent prefix s)
        ≡ concrete_frontier Exponent prefix ++ s ∷ []
  unfolding append concrete_frontier
  frontier-append [] s = refl
  frontier-append (back ∷ []) s = by_power back.explicit_word back.symbolic_power
    where
      by_power :
          (w : PathWord) (p : Option (SymbolicPathPower Exponent))
          → concrete_frontier Exponent
              (append Exponent (record { explicit_word = w; symbolic_power = p } ∷ []) s)
            ≡ concrete_frontier Exponent (record { explicit_word = w; symbolic_power = p } ∷ [])
              ++ s ∷ []
      by_power w none = refl
      by_power w (some p) = refl
  frontier-append (first ∷ back ∷ []) s = by_power back.explicit_word back.symbolic_power
    where
      by_power :
          (w : PathWord) (p : Option (SymbolicPathPower Exponent))
          → concrete_frontier Exponent
              (append Exponent (first ∷ record { explicit_word = w; symbolic_power = p } ∷ []) s)
            ≡ concrete_frontier Exponent
                (first ∷ record { explicit_word = w; symbolic_power = p } ∷ [])
              ++ s ∷ []
      by_power w none = refl
      by_power w (some p) = refl
  frontier-append (first ∷ second ∷ third ∷ prefix) s = frontier-append (second ∷ third ∷ prefix) s

  frontier-append_power :
      (prefix : Segments) (root : PathWord) (exponent : Exponent)
      → concrete_frontier Exponent (append_symbolic_power Exponent prefix root exponent) ≡ []
  unfolding append_symbolic_power concrete_frontier
  frontier-append_power [] root exponent = refl
  frontier-append_power (x ∷ []) root exponent = refl
  frontier-append_power (x ∷ y ∷ prefix) root exponent =
      frontier-append_power (y ∷ prefix) root exponent

  -- After any sequence of calls of `append` and `append_symbolic_power`, the prefix stands for what it
  -- stood for before and then these symbols and powers, and `concrete_frontier` gives the symbols
  -- since the last power, or with no power those it gave before and then all symbols.
  pub events-replay :
      (prefix : Segments) (es : List Event)
      → (events (replay prefix es) ≡ events prefix ++ es)
        × (concrete_frontier Exponent (replay prefix es)
            ≡ since_power (concrete_frontier Exponent prefix) es)
  events-replay prefix [] = (sym (append-nil (events prefix)), refl)
  events-replay prefix (symbol s ∷ es) =
      let rest = events-replay (append Exponent prefix s) es in
      (
        rest.0
            ∙ ap (λ x. x ++ es) (events-append prefix s)
            ∙ append_assoc (events prefix) (symbol s ∷ []) es,
        rest.1 ∙ ap (λ w. since_power w es) (frontier-append prefix s),
      )
  events-replay prefix (power root exponent ∷ es) =
      let rest = events-replay (append_symbolic_power Exponent prefix root exponent) es in
      (
        rest.0
            ∙ ap (λ x. x ++ es) (events-append_power prefix root exponent)
            ∙ append_assoc (events prefix) (power root exponent ∷ []) es,
        rest.1 ∙ ap (λ w. since_power w es) (frontier-append_power prefix root exponent),
      )
