-- ===== src/Tools/History/Kept.antt =====
-- What `translateHistory` of basispoints/tools.go leaves of the bridge as it is.
use cliproxyapi_plugin_basis.Common.{
  ℕ, suc, Option, none, some, List, [], ◌∷◌, ◌≡◌, refl, ◌∙◌, subst, if_split, Result, >>=-All,
}
use cliproxyapi_plugin_basis.Common.Text.{Text, lit, elem}
use cliproxyapi_plugin_basis.Json.{Json, object, Fields, get_field, delete_field, text_at, Coding}
use cliproxyapi_plugin_basis.Content.{Url, validate_history_content}
use cliproxyapi_plugin_basis.Replay.{Cache, get, get_for_call}
use cliproxyapi_plugin_basis.Tools.{Bridge, ToolError, replay_put, replay_get, replay_answer}
use cliproxyapi_plugin_basis.Tools.History.{
  History, ItemKind, additional_tools, item_reference, compaction_trigger, reasoning, call,
  call_output, configuration_update, other, translate_history, history_items, history_item,
  history_step, internal_field, native_call, native_or_rebuilt, original_call, with_original,
  replay_get_for_call, rebuild_native_history_call, history_call_fingerprint, push_item, keep_item,
  reasoning_item, content_checked,
}
use cliproxyapi_plugin_basis.Tools.Calls.Relayed.{IfOk}
use cliproxyapi_plugin_basis.Tools.Calls.Direct.{replay_put-tools}

abbrev KeepsFound : Bridge → Option Fields × Bridge → Type 0
KeepsFound b r = r.1.tools ≡ b.tools

abbrev Keeps : Bridge → Result ToolError (Fields × Bridge) → Type 0
Keeps b r = IfOk (λ found. found.1.tools ≡ b.tools) r

abbrev KeepsHistory : Bridge → Result ToolError History → Type 0
KeepsHistory b r = IfOk (λ h. h.bridge.tools ≡ b.tools) r

abbrev KeepsStep : {A : Type 0} → Bridge → Result ToolError (History × A) → Type 0
KeepsStep b r = IfOk (λ done. done.0.bridge.tools ≡ b.tools) r

replay_get-tools : (k : Coding) (b : Bridge) (id : Text) → (replay_get k b id).1.tools ≡ b.tools
unfolding replay_get
replay_get-tools k b id = by_cache b.replay
  where
    by_cache :
        (o : Option Cache)
        → KeepsFound b (elim o [ none ↦ (none, b) | some c ↦ replay_answer k b (get c b.scope id) ])
    by_cache none = refl
    by_cache (some c) = refl

replay_get_for_call-tools :
    (k : Coding) (b : Bridge) (id : Text) (item : Fields)
    → (replay_get_for_call k b id item).1.tools ≡ b.tools
unfolding replay_get_for_call
replay_get_for_call-tools k b id item = by_cache b.replay
  where
    by_cache :
        (o : Option Cache)
        → KeepsFound b (elim o [
          | none ↦ (none, b)
          | some c ↦ replay_answer k b (get_for_call c b.scope id (history_call_fingerprint k item))
        ])
    by_cache none = refl
    by_cache (some c) = refl

native_call-Keeps :
    (k : Coding) (id : Text) (item : Fields) (b : Bridge) → Keeps b (native_call k id item b)
unfolding native_call
native_call-Keeps k id item b =
    found (replay_get_for_call k b id item) (replay_get_for_call-tools k b id item)
  where
    found :
        (r : Option Fields × Bridge) → r.1.tools ≡ b.tools → Keeps b (native_or_rebuilt k id item r)
    found (some native, b') h = h
    found (none, b') h =
        >>=-All (Keeps b) (rebuild_native_history_call k item) _ (λ e. tt)
          (λ native _.
            >>=-All (Keeps b) (replay_put k b' id native (history_call_fingerprint k item)) _
              (λ e. tt)
              (λ b'' p.
                subst (IfOk (λ b''. b''.tools ≡ b'.tools)) p
                  (replay_put-tools k b' id native (history_call_fingerprint k item))
                ∙ h))

original_call-KeepsHistory :
    (k : Coding) (id : Text) (h : History) → KeepsHistory h.bridge (original_call k id h)
unfolding original_call push_item
original_call-KeepsHistory k id h =
    if_split (KeepsHistory h.bridge) (elem id h.seen_calls) (λ _. refl)
      (λ _. found (replay_get k h.bridge id) (replay_get-tools k h.bridge id))
  where
    found :
        (r : Option Fields × Bridge)
        → r.1.tools ≡ h.bridge.tools
        → KeepsHistory h.bridge (with_original id h r)
    found (none, b') p = tt
    found (some native, b') p = p

keep_item-KeepsStep :
    (parse : Text → Option Url) (index : ℕ) (left item : Fields) (h : History) (b : Bridge)
    → h.bridge.tools ≡ b.tools
    → KeepsStep b (keep_item parse index left item h)
unfolding keep_item push_item
keep_item-KeepsStep parse index left item h b p =
    >>=-All (KeepsStep b)
      (content_checked
        (validate_history_content parse (get_field (lit "content") item) index (lit "content")))
      _ (λ e. tt) (λ _ _. p)

reasoning_item-tools :
    (item : Fields) (h : History) → (reasoning_item item h).bridge.tools ≡ h.bridge.tools
unfolding reasoning_item push_item
reasoning_item-tools item h =
    if_split {A = History} (λ h'. h'.bridge.tools ≡ h.bridge.tools) _ (λ _. refl) (λ _. refl)

history_step-KeepsStep :
    (k : Coding) (parse : Text → Option Url) (index : ℕ) (item : Fields) (h : History)
    (kind : ItemKind)
    → KeepsStep h.bridge (history_step k parse index item h kind)
unfolding history_step
history_step-KeepsStep k parse index item h additional_tools = refl
history_step-KeepsStep k parse index item h item_reference = tt
history_step-KeepsStep k parse index item h compaction_trigger = refl
history_step-KeepsStep k parse index item h reasoning = reasoning_item-tools item h
history_step-KeepsStep k parse index item h call =
    let id = text_at (lit "call_id") item in
    >>=-All (KeepsStep h.bridge) (native_call k id item h.bridge) _ (λ e. tt)
      (λ found p.
        keep_item-KeepsStep parse index item found.0 _ h.bridge
          (subst (Keeps h.bridge) p (native_call-Keeps k id item h.bridge)))
history_step-KeepsStep k parse index item h call_output =
    let id = text_at (lit "call_id") item in
    >>=-All (KeepsStep h.bridge) (original_call k id h) _ (λ e. tt)
      (λ h' p.
        >>=-All (KeepsStep h.bridge)
          (content_checked
            (validate_history_content parse (get_field (lit "output") item) index (lit "output")))
          _ (λ e. tt)
          (λ _ _.
            keep_item-KeepsStep parse index _ _ h' h.bridge
              (subst (KeepsHistory h.bridge) p (original_call-KeepsHistory k id h))))
history_step-KeepsStep k parse index item h configuration_update = tt
history_step-KeepsStep k parse index item h other =
    keep_item-KeepsStep parse index item item h h.bridge refl

history_item-KeepsStep :
    (k : Coding) (parse : Text → Option Url) (index : ℕ) (v : Json) (h : History)
    → KeepsStep h.bridge (history_item k parse index v h)
history_item-KeepsStep k parse index (object raw) h =
    history_step-KeepsStep k parse index (delete_field internal_field raw) h _
history_item-KeepsStep k parse index _ h = tt

history_items-KeepsStep :
    (k : Coding) (parse : Text → Option Url) (index : ℕ) (input : List Json) (h : History)
    → KeepsStep h.bridge (history_items k parse index input h)
unfolding history_items
history_items-KeepsStep k parse index [] h = refl
history_items-KeepsStep k parse index (raw ∷ rest) h =
    >>=-All (KeepsStep h.bridge) (history_item k parse index raw h) _ (λ e. tt)
      (λ first p.
        >>=-All (KeepsStep h.bridge) (history_items k parse (suc index) rest first.0) _ (λ e. tt)
          (λ later q.
            subst (KeepsStep first.0.bridge) q
              (history_items-KeepsStep k parse (suc index) rest first.0)
            ∙ subst (KeepsStep h.bridge) p (history_item-KeepsStep k parse index raw h)))

pub translate_history-tools :
    (k : Coding) (parse : Text → Option Url) (input : List Json) (b : Bridge)
    → IfOk (λ done. done.bridge.tools ≡ b.tools) (translate_history k parse input b)
unfolding translate_history
translate_history-tools k parse input b =
    >>=-All (IfOk (λ done. done.bridge.tools ≡ b.tools)) (history_items k parse 0 input start) _
      (λ e. tt) (λ done p. subst (KeepsStep b) p (history_items-KeepsStep k parse 0 input start))
  where
    start : History
    start = record { bridge = b; result = []; seen_calls = []; trigger = none }
