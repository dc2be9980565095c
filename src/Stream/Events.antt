-- ===== src/Stream/Events.antt =====
-- What `transform` of basispoints/stream.go writes, event by event.
use cliproxyapi_plugin_basis.Common.{
  ℕ, suc, ◌+◌, Bool, true, ◌||◌, some, List, [], ◌∷◌, ◌++◌, ◌≡◌, refl, ap, ◌∙◌, arith, if_split,
  length, All, All-append, ok, err, ◌>>=◌,
}
use cliproxyapi_plugin_basis.Common.Text.{Text, lit, ◌=ᵗ◌}
use cliproxyapi_plugin_basis.Common.Assoc.{Assoc, lookup}
use cliproxyapi_plugin_basis.Json.{Json, Fields, fields_of, items_of, text_at, get_field}
use cliproxyapi_plugin_basis.Tools.{Tool, is_tool}
use cliproxyapi_plugin_basis.Stream.{
  Payload, passed, item_added, item_done, Written, Stream, Step, emit,
}
use cliproxyapi_plugin_basis.Stream.Lines.{is_protocol}

-- A call of a tool names one of the declared tools.
abbrev pub NamesDeclared : Assoc Tool → Fields → Type 0
NamesDeclared tools item =
    is_tool item ≡ true
    → (key : Text) × (t : Tool) × (lookup key tools ≡ some t)
      × (text_at (lit "name") item ≡ t.name)
      × (text_at (lit "namespace") item ≡ t.namespace)

abbrev pub is_item_event : Text → Bool
is_item_event kind =
    kind =ᵗ lit "response.output_item.added" || kind =ᵗ lit "response.output_item.done"

abbrev pub NamesDeclaredItem : Assoc Tool → Json → Type 0
NamesDeclaredItem tools v = NamesDeclared tools (fields_of v)

-- What the client may see: an item of an event, and the items of a response, name declared tools
-- where they are calls of tools.
abbrev pub IsShown : Assoc Tool → Text → Payload → Type 0
IsShown tools kind (passed payload) =
    (is_item_event kind ≡ true → NamesDeclaredItem tools (get_field (lit "item") payload))
    × All (NamesDeclaredItem tools)
        (items_of (get_field (lit "output") (fields_of (get_field (lit "response") payload))))
IsShown tools kind (item_added i item) = NamesDeclared tools item
IsShown tools kind (item_done i item) = NamesDeclared tools item
IsShown tools kind _ = Unit

abbrev pub ShowsDeclared : Assoc Tool → Written → Type 0
ShowsDeclared tools w = IsShown tools w.kind w.payload

-- The events have the numbers from `n` on, in their order.
abbrev pub IsNumbered : ℕ → List Written → Type 0
IsNumbered n [] = Unit
IsNumbered n (w ∷ ws) = (w.sequence_number ≡ n) × IsNumbered (suc n) ws

-- What is written, by a stream whose catalog is `tools`.
pub record IsWritten (tools : Assoc Tool) (s : Stream) : Type 0 where
  pub shown : All (ShowsDeclared tools) s.written
  pub numbered : IsNumbered 0 s.written

-- The invariant between events.
pub record IsGuarded (tools : Assoc Tool) (s : Stream) : Type 0 where
  pub is_written : IsWritten tools s
  pub counted : length s.written ≡ s.sequence
  pub same_tools : s.bridge.tools ≡ tools

abbrev pub StepGuarded : Assoc Tool → Step → Type 0
StepGuarded tools (ok s) = IsGuarded tools s
StepGuarded tools (err (e, s)) = IsWritten tools s × (is_protocol e ≡ true → IsGuarded tools s)

IsNumbered-append :
    (n : ℕ) (ws : List Written) (w : Written)
    → IsNumbered n ws
    → w.sequence_number ≡ n + length ws
    → IsNumbered n (ws ++ w ∷ [])
IsNumbered-append n [] w h p = (omega (arith, p), tt)
IsNumbered-append n (v ∷ ws) w h p = (h.0, IsNumbered-append (suc n) ws w h.1 (omega (arith, p)))

length-append_one : (ws : List Written) (w : Written) → length (ws ++ w ∷ []) ≡ length ws + 1
length-append_one [] w = refl
length-append_one (v ∷ ws) w = omega (arith, length-append_one ws w)

-- One event more.
pub emit-StepGuarded :
    (accepts : ℕ → Bool) (tools : Assoc Tool) (kind : Text) (payload : Payload) (s : Stream)
    → IsGuarded tools s
    → IsShown tools kind payload
    → StepGuarded tools (emit accepts kind payload s)
unfolding emit
emit-StepGuarded accepts tools kind payload s g h =
    if_split (StepGuarded tools) (accepts s.sequence)
      (λ _. record {
        is_written = record {
          shown = All-append (ShowsDeclared tools) s.written (w ∷ []) g.is_written.shown (h, tt);
          numbered =
              IsNumbered-append 0 s.written w g.is_written.numbered (omega (arith, g.counted));
        };
        counted = length-append_one s.written w ∙ ap (λ n. n + 1) g.counted;
        same_tools = g.same_tools;
      })
      (λ _.
        (record { shown = g.is_written.shown; numbered = g.is_written.numbered }, λ p. absurd (cc)))
  where
    w : Written
    w = record { kind = kind; sequence_number = s.sequence; payload = payload }

-- Steps one after the other.
pub StepGuarded-then :
    (tools : Assoc Tool) (m : Step) (f : Stream → Step)
    → StepGuarded tools m
    → ((s : Stream) → IsGuarded tools s → StepGuarded tools (f s))
    → StepGuarded tools (m >>= f)
StepGuarded-then tools (ok s) f g h = h s g
StepGuarded-then tools (err e) f g h = g
