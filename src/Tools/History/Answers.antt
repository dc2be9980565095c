-- ===== src/Tools/History/Answers.antt =====
-- `translateHistory` of basispoints/tools.go: every result of a tool comes after its call.
use cliproxyapi_plugin_basis.Common.{
  ℕ, suc, true, Option, none, some, List, [], ◌∷◌, ◌≡◌, refl, sym, ap, ◌∙◌, subst, arith, is_nil,
  if_split, Bool-cases, inl, inr, Result, ok, >>=-All, All, All-map,
}
use cliproxyapi_plugin_basis.Common.Text.{Text, lit, ◌=ᵗ◌, =ᵗ_iff, elem}
use cliproxyapi_plugin_basis.Content.{Url, validate_history_content}
use cliproxyapi_plugin_basis.Json.{
  Json, string, array, nil, object, Fields, text, text_at, get_field, set_field, delete_field,
  object_of, ltb_text, Coding,
}
use cliproxyapi_plugin_basis.Json.Laws.{get_field-set_field_ne}
use cliproxyapi_plugin_basis.Tools.{Bridge, ToolError, replay_get}
use cliproxyapi_plugin_basis.Tools.History.{
  History, ItemKind, additional_tools, item_reference, compaction_trigger, reasoning, call,
  call_output, configuration_update, other, item_kind, push_item, content_checked, native_call,
  with_original, original_call, lowered_output, keep_item, reasoning_item, history_step,
  internal_field, history_item, history_items, with_trigger, Translated, translate_history,
}
use cliproxyapi_plugin_basis.Tools.History.Paired.{
  IsCallOf, HasCall, IsOutput, Paired, no_items, add_item, HasCall-append, HasCall-last,
  call-not_output,
}
use cliproxyapi_plugin_basis.Tools.History.Originals.{
  HoldsOriginals, ReadsRebuilt, FindsOriginal, replay_get-FindsOriginal, IsNativeCall,
  native_call-IsNativeCall,
}
use cliproxyapi_plugin_basis.Tools.Calls.Relayed.{IfOk}

abbrev IsNoOutput : Option Json → Type 0
IsNoOutput none = Unit
IsNoOutput (some v) = IsOutput v → ⊥

-- The invariant of the loop.
record IsAnswered (k : Coding) (h : History) : Type 0 where
  pub paired : Paired h.result
  pub called : All (λ id. HasCall id h.result) h.seen_calls
  pub originals : HoldsOriginals k h.bridge.scope h.bridge.replay
  pub triggered : IsNoOutput h.trigger

-- One more item, which is no result or has its call, and a bridge whose cache is as good.
push-IsAnswered :
    (k : Coding) (h : History) (item : Fields)
    → IsAnswered k h
    → (IsOutput (object item) → HasCall (text_at (lit "call_id") item) h.result)
    → IsAnswered k (push_item item h)
unfolding push_item
push-IsAnswered k h item a answered = record {
  paired = add_item h.result (object item) a.paired answered;
  called = All-map h.seen_calls (λ id c. HasCall-append id h.result (object item) c) a.called;
  originals = a.originals;
  triggered = a.triggered;
}

-- The native item of a call.
push_call-IsAnswered :
    (k : Coding) (h : History) (b' : Bridge) (id : Text) (native : Fields)
    → IsAnswered k h
    → IsCallOf id (object native)
    → HoldsOriginals k b'.scope b'.replay
    → IsAnswered k (push_item native (record h { bridge = b'; seen_calls = id ∷ h.seen_calls }))
unfolding push_item
push_call-IsAnswered k h b' id native a is held = record {
  paired =
      add_item h.result (object native) a.paired
        (λ out. absurd (call-not_output id (object native) is out));
  called = (
    HasCall-last id h.result (object native) is,
    All-map h.seen_calls (λ j c. HasCall-append j h.result (object native) c) a.called,
  );
  originals = held;
  triggered = a.triggered;
}

-- What a step of the loop returns.
abbrev StepAnswered : Coding → Result ToolError (History × Fields) → Type 0
StepAnswered k = IfOk (λ r. IsAnswered k r.0)

keep-StepAnswered :
    (k : Coding) (parse : Text → Option Url) (index : ℕ) (left item : Fields) (h : History)
    → IsAnswered k (push_item item h)
    → StepAnswered k (keep_item parse index left item h)
unfolding keep_item
keep-StepAnswered k parse index left item h a =
    >>=-All (StepAnswered k)
      (content_checked
        (validate_history_content parse (get_field (lit "content") item) index (lit "content")))
      _ (λ e. tt) (λ u _. a)

elem-HasCall :
    (ids : List Text) (id : Text) (items : List Json)
    → All (λ id. HasCall id items) ids
    → elem id ids ≡ true
    → HasCall id items
unfolding elem
elem-HasCall [] id items a h = absurd (cc)
elem-HasCall (j ∷ ids) id items a h = elim (Bool-cases (j =ᵗ id)) [
  | inl same ↦ subst (λ i. HasCall i items) ((=ᵗ_iff j id).0 same) a.0
  | inr differ ↦ elem-HasCall ids id items a.1 (ground (arith, h, differ))
]

original-IsAnswered :
    (k : Coding) (id : Text) (h : History)
    → IsAnswered k h
    → IfOk (λ h'. IsAnswered k h' × HasCall id h'.result) (original_call k id h)
unfolding original_call
original-IsAnswered k id h a =
    if_split P (elem id h.seen_calls)
      (λ seen. (a, elem-HasCall h.seen_calls id h.result a.called seen))
      (λ _. found (replay_get k h.bridge id) (replay_get-FindsOriginal k h.bridge id a.originals))
  where
    P : Result ToolError History → Type 0
    P = IfOk (λ h'. IsAnswered k h' × HasCall id h'.result)

    found : (r : Option Fields × Bridge) → FindsOriginal k h.bridge id r → P (with_original id h r)
    found (none, b') f = tt
    found (some native, b') (is, held, same) = (
      push_call-IsAnswered k h b' id native a (is native refl) held,
      (unfold push_item in HasCall-last id h.result (object native) (is native refl)),
    )

-- A lowered result has the identifier of the call that it had.
lowered-call_id :
    (k : Coding) (item : Fields)
    → text_at (lit "call_id") (lowered_output k item) ≡ text_at (lit "call_id") item
unfolding lowered_output text_at
lowered-call_id k item = ap text (
    get_field-set_field_ne (lit "id") (lit "call_id") _ _ (unfold lit ◌=ᵗ◌ in refl)
    ∙ get_field-set_field_ne (lit "type") (lit "call_id") _ _ (unfold lit ◌=ᵗ◌ in refl))

-- An item whose type is that of a result is handled as one.
output-kind :
    (item : Fields) → IsOutput (object item) → item_kind (text_at (lit "type") item) ≡ call_output
unfolding item_kind lit ◌=ᵗ◌ elem
output-kind item out = ap item_kind out

step-StepAnswered :
    (k : Coding) (parse : Text → Option Url) (index : ℕ) (item : Fields) (h : History)
    → ReadsRebuilt k item
    → IsAnswered k h
    → (kind : ItemKind) → item_kind (text_at (lit "type") item) ≡ kind
    → StepAnswered k (history_step k parse index item h kind)
unfolding history_step
step-StepAnswered k parse index item h reads a additional_tools p = a
step-StepAnswered k parse index item h reads a item_reference p = tt
step-StepAnswered k parse index item h reads a compaction_trigger p = record {
  paired = a.paired;
  called = a.called;
  originals = a.originals;
  triggered = λ out. absurd (apart_trigger (sym p ∙ output-kind item out));
}
  where
    apart_trigger : compaction_trigger ≡ call_output → ⊥
    apart_trigger q = cc
step-StepAnswered k parse index item h reads a reasoning p =
    unfold reasoning_item in
    if_split (λ h'. IsAnswered k h') (is_nil (text_at (lit "encrypted_content") item)) (λ _. a)
      (λ _. push-IsAnswered k h _ a (λ out. absurd (apart_reasoning _ out)))
  where
    apart_reasoning :
        (encrypted : Text)
        → IsOutput (
            object (
              object_of (
                (lit "type", string (lit "reasoning"))
                ∷ (lit "summary", array nil)
                ∷ (lit "encrypted_content", string encrypted)
                ∷ [])))
        → ⊥
    apart_reasoning encrypted out =
        unfold text_at get_field set_field object_of lit ◌=ᵗ◌ ltb_text in absurd (cc out)
step-StepAnswered k parse index item h reads a call p =
    >>=-All (StepAnswered k) (native_call k (text_at (lit "call_id") item) item h.bridge) _
      (λ e. tt)
      (λ found q. native found (
        subst (IfOk (IsNativeCall k h.bridge (text_at (lit "call_id") item))) q
          (native_call-IsNativeCall k item h.bridge reads a.originals)))
  where
    native :
        (found : Fields × Bridge)
        → IsNativeCall k h.bridge (text_at (lit "call_id") item) found
        → StepAnswered k (
            keep_item parse index item found.0 (record h {
              bridge = found.1;
              seen_calls = text_at (lit "call_id") item ∷ h.seen_calls;
            }))
    native (n, b') (is, held, same) =
        keep-StepAnswered k parse index item n _ (push_call-IsAnswered k h b' _ n a is held)
step-StepAnswered k parse index item h reads a call_output p =
    >>=-All (StepAnswered k) (original_call k (text_at (lit "call_id") item) h) _ (λ e. tt)
      (λ h' q.
        >>=-All (StepAnswered k)
          (content_checked
            (validate_history_content parse (get_field (lit "output") item) index (lit "output")))
          _ (λ e. tt)
          (λ u _. answered h' (
            subst (IfOk (λ h'. IsAnswered k h' × HasCall (text_at (lit "call_id") item) h'.result))
              q (original-IsAnswered k (text_at (lit "call_id") item) h a))))
  where
    answered :
        (h' : History)
        → IsAnswered k h' × HasCall (text_at (lit "call_id") item) h'.result
        → StepAnswered k (keep_item parse index (lowered_output k item) (lowered_output k item) h')
    answered h' (a', has) =
        keep-StepAnswered k parse index (lowered_output k item) (lowered_output k item) h'
          (push-IsAnswered k h' (lowered_output k item) a' (λ _. rw (lowered-call_id k item) has))
step-StepAnswered k parse index item h reads a configuration_update p = tt
step-StepAnswered k parse index item h reads a other p =
    keep-StepAnswered k parse index item item h
      (push-IsAnswered k h item a (λ out. absurd (apart_other (sym p ∙ output-kind item out))))
  where
    apart_other : other ≡ call_output → ⊥
    apart_other q = cc

-- What is asked of the input: of every object, that its rebuilt item is read back.
abbrev pub ReadsInput : Coding → Json → Type 0
ReadsInput k (object raw) = ReadsRebuilt k (delete_field internal_field raw)
ReadsInput k _ = Unit

item-StepAnswered :
    (k : Coding) (parse : Text → Option Url) (index : ℕ) (raw : Json) (h : History)
    → ReadsInput k raw
    → IsAnswered k h
    → StepAnswered k (history_item k parse index raw h)
item-StepAnswered k parse index (object raw) h reads a =
    step-StepAnswered k parse index (delete_field internal_field raw) h reads a _ refl
item-StepAnswered k parse index _ h reads a = tt

items-IsAnswered :
    (k : Coding) (parse : Text → Option Url) (index : ℕ) (input : List Json) (h : History)
    → All (ReadsInput k) input
    → IsAnswered k h
    → IfOk (λ r. IsAnswered k r.0) (history_items k parse index input h)
unfolding history_items
items-IsAnswered k parse index [] h reads a = a
items-IsAnswered k parse index (raw ∷ rest) h reads a =
    >>=-All (IfOk (λ r. IsAnswered k r.0)) (history_item k parse index raw h) _ (λ e. tt)
      (λ first p.
        >>=-All (IfOk (λ r. IsAnswered k r.0)) (history_items k parse (suc index) rest first.0) _
          (λ e. tt)
          (λ later q. subst (IfOk (λ r. IsAnswered k r.0)) q (
            items-IsAnswered k parse (suc index) rest first.0 reads.1
              (subst (StepAnswered k) p (item-StepAnswered k parse index raw h reads.0 a)))))

-- Where the history is translated, and all that the cache holds for the scope are calls of tools
-- with the identifiers that they are kept under, every result of a tool in the translation comes
-- after a call of a tool with its identifier, and the cache holds only such calls afterwards. The
-- decoder reads back the items that are rebuilt of the calls of the input.
pub translate_history-Paired :
    (k : Coding) (parse : Text → Option Url) (input : List Json) (b : Bridge) (done : Translated)
    → All (ReadsInput k) input
    → HoldsOriginals k b.scope b.replay
    → translate_history k parse input b ≡ ok done
    → Paired done.items × HoldsOriginals k done.bridge.scope done.bridge.replay
unfolding translate_history
translate_history-Paired k parse input b done reads held h = subst (IfOk P) h (
    >>=-All (IfOk P) (history_items k parse 0 input start) _ (λ e. tt)
      (λ r p. finished r.0 (
        subst (IfOk (λ r. IsAnswered k r.0)) p (
          items-IsAnswered k parse 0 input start reads
            (record { paired = no_items; called = tt; originals = held; triggered = tt })))))
  where
    P : Translated → Type 0
    P d = Paired d.items × HoldsOriginals k d.bridge.scope d.bridge.replay

    start : History
    start = record { bridge = b; result = []; seen_calls = []; trigger = none }

    last :
        (t : Option Json) (items : List Json)
        → Paired items
        → IsNoOutput t
        → Paired (with_trigger t items)
    last none items p n = p
    last (some v) items p n = add_item items v p (λ out. absurd (n out))

    finished :
        (h : History)
        → IsAnswered k h
        → Paired (with_trigger h.trigger h.result) × HoldsOriginals k h.bridge.scope h.bridge.replay
    finished h a = (last h.trigger h.result a.paired a.triggered, a.originals)
