-- ===== src/Lints/Orientation.antt =====
-- The line mode: where a stream meets messages, each side gets an overlay, and the sides swap their
-- orientations.
use websocat.Base.{
  ◌≡◌, inl, inr, refl, Bool, true, false, List, [], ◌∷◌, arith, Outcome, returns, Outcome-cases,
}
use websocat.Specifier.{SpecifierClass, SpecifierStack}
use websocat.Specifier.Classes.Overlay.{line2_message_class, message2_line_class}
use websocat.Lints.Options.{WebsocatConfiguration2}
use websocat.Lints.Monad.{Warning, done, Linted-cases}
use websocat.Lints.Stacks.{
  oriented_over, oriented_address, orient, is_stream_oriented, insert_line_class,
  insert_line_class_in_proper_place,
}
use websocat.Lints.Stdio.{l_linemode, insert_line_mode}

-- The inserted class is the outermost one that decides.
insert_line_class-orients :
    (ys : List SpecifierClass) (x : SpecifierClass) (inner : Outcome Bool) (q b : Bool)
    (zs : List SpecifierClass)
    → ((p : Bool) → orient x.message_boundary_status p ≡ returns b)
    → oriented_over ys inner ≡ returns q
    → insert_line_class ys x ≡ returns zs
    → oriented_over zs inner ≡ returns b
unfolding insert_line_class oriented_over
insert_line_class-orients [] x inner q b zs dec o e = ground (arith, dec q)
insert_line_class-orients (y ∷ ys) x inner q b zs dec o e =
    elim (Outcome-cases (oriented_over ys inner)) [
      | inl fault ↦ ground arith
      | inr (p, below) ↦ elim (Outcome-cases (insert_line_class ys x)) [
        | inl fault ↦ ground (arith, dec p, dec q)
        | inr (vs, rest) ↦
            ground (arith, dec p, dec q, insert_line_class-orients ys x inner p b vs dec below rest)
      ]
    ]

insert-orients :
    (st : SpecifierStack) (x : SpecifierClass) (q b : Bool) (st' : SpecifierStack)
    → ((p : Bool) → orient x.message_boundary_status p ≡ returns b)
    → is_stream_oriented st ≡ returns q
    → insert_line_class_in_proper_place st x ≡ returns st'
    → is_stream_oriented st' ≡ returns b
unfolding insert_line_class_in_proper_place is_stream_oriented
insert-orients st x q b st' dec o e = elim (Outcome-cases (insert_line_class st.overlays x)) [
  | inl fault ↦ ground arith
  | inr (vs, rest) ↦ ground (
    arith,
    insert_line_class-orients st.overlays x (oriented_address st.addrtype.message_boundary_status) q
        b vs dec o rest,
  )
]

line2_message-orients :
    (p : Bool) → orient line2_message_class.message_boundary_status p ≡ returns false
line2_message-orients p = refl

message2_line-orients :
    (p : Bool) → orient message2_line_class.message_boundary_status p ≡ returns true
message2_line-orients p = refl

insert_line_mode-swaps :
    (left right : Bool) (c c' : WebsocatConfiguration2) (ws : List Warning)
    → is_stream_oriented c.s1 ≡ returns left
    → is_stream_oriented c.s2 ≡ returns right
    → insert_line_mode left right c ≡ done c' ws
    → (is_stream_oriented c'.s1 ≡ returns right) × (is_stream_oriented c'.s2 ≡ returns left)
unfolding insert_line_mode
insert_line_mode-swaps false false c c' ws l r e = ground arith
insert_line_mode-swaps true true c c' ws l r e = ground arith
insert_line_mode-swaps true false c c' ws l r e =
    elim (Outcome-cases (insert_line_class_in_proper_place c.s1 line2_message_class)) [
      | inl fault ↦ ground arith
      | inr (s1, e1) ↦
          elim (Outcome-cases (insert_line_class_in_proper_place c.s2 message2_line_class)) [
            | inl fault ↦ ground arith
            | inr (s2, e2) ↦ ground (
              arith,
              insert-orients c.s1 line2_message_class true false s1 line2_message-orients l e1,
              insert-orients c.s2 message2_line_class false true s2 message2_line-orients r e2,
            )
          ]
    ]
insert_line_mode-swaps false true c c' ws l r e =
    elim (Outcome-cases (insert_line_class_in_proper_place c.s2 line2_message_class)) [
      | inl fault ↦ ground arith
      | inr (s2, e2) ↦
          elim (Outcome-cases (insert_line_class_in_proper_place c.s1 message2_line_class)) [
            | inl fault ↦ ground arith
            | inr (s1, e1) ↦ ground (
              arith,
              insert-orients c.s2 line2_message_class true false s2 line2_message-orients r e2,
              insert-orients c.s1 message2_line_class false true s1 message2_line-orients l e1,
            )
          ]
    ]

-- In text mode with automatic lines, a configuration that passes `l_linemode` has its left side
-- oriented as its right side was, and its right side as its left side was: a stream that meets
-- messages is cut into messages, and the messages are made a stream.
pub l_linemode-swaps :
    (c c' : WebsocatConfiguration2) (ws : List Warning)
    → c.opts.no_auto_linemode ≡ false
    → c.opts.websocket_text_mode ≡ true
    → l_linemode c ≡ done c' ws
    → (is_stream_oriented c'.s1 ≡ is_stream_oriented c.s2)
      × (is_stream_oriented c'.s2 ≡ is_stream_oriented c.s1)
unfolding l_linemode
l_linemode-swaps c c' ws auto text e = elim (Outcome-cases (is_stream_oriented c.s1)) [
  | inl fault ↦ ground arith
  | inr (left, e1) ↦ elim (Outcome-cases (is_stream_oriented c.s2)) [
    | inl fault ↦ ground arith
    | inr (right, e2) ↦ elim (Linted-cases (insert_line_mode left right c)) [
      | inl fails ↦ ground (arith, fails c' ws)
      | inr (d, vs, e3) ↦ ground (arith, insert_line_mode-swaps left right c d vs e1 e2 e3)
    ]
  ]
]
