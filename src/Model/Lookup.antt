-- ===== src/Model/Lookup.antt =====
-- The lookups of model/element.go and model/model.go, and `getMultiInstance` of
-- engine/internal/common.go.
use go_bpmn.Shared.{
  ℕ, Bool, false, String, Option, none, some, List, [], ◌∷◌, Result, ok, ◌>>=◌, str_eq,
  if◌then◌else◌,
}
use go_bpmn.Enum.ElementType.{
  ElementType, same, business_rule_task, script_task, send_task, service_task, user_task,
  call_activity, sub_process,
}
use go_bpmn.Model.Element.{
  Element, MultiInstance, Attachment, Objects, as_task, as_call_activity, as_sub_process,
}

module _ (o : Objects) where
  open o use {element, flow}

  find_by_id : String → List ℕ → Option ℕ
  find_by_id id [] = none
  find_by_id id (c ∷ cs) = if str_eq (element c).id id then some c else find_by_id id cs

  -- `Element.ChildById`.
  unfoldable pub child_by_id : Element → String → Option ℕ
  unfolding find_by_id
  child_by_id e id = find_by_id id e.children

  -- `Model.ElementById`.
  unfoldable pub element_by_id : String → Option ℕ
  unfolding find_by_id
  element_by_id id = find_by_id id o.elements

  unfoldable pub with_type : ElementType → List ℕ → List ℕ
  with_type t [] = []
  with_type t (c ∷ cs) =
      let rest = with_type t cs in if same (element c).type t then c ∷ rest else rest

  -- `Element.ChildrenByType`.
  unfoldable pub children_by_type : Element → ElementType → List ℕ
  unfolding with_type
  children_by_type e t = with_type t e.children

  -- `Model.ElementsByType`.
  unfoldable pub elements_by_type : ElementType → List ℕ
  unfolding with_type
  elements_by_type t = with_type t o.elements

  unfoldable pub flow_by_id : String → List ℕ → Option ℕ
  flow_by_id id [] = none
  flow_by_id id (f ∷ fs) = if str_eq (flow f).id id then some f else flow_by_id id fs

  -- `Element.OutgoingById`.
  unfoldable pub outgoing_by_id : Element → String → Option ℕ
  unfolding flow_by_id
  outgoing_by_id e id = flow_by_id id e.outgoing

  abbrev pub is_target : String → Option ℕ → Bool
  is_target id none = false
  is_target id (some t) = str_eq (element t).id id

  unfoldable pub find_target : String → List ℕ → Option ℕ
  find_target id [] = none
  find_target id (f ∷ fs) =
      if is_target id (flow f).target then (flow f).target else find_target id fs

  -- `Element.TargetById`: a flow with no target is passed over.
  unfoldable pub target_by_id : Element → String → Option ℕ
  unfolding find_target
  target_by_id e id = find_target id e.outgoing

  attached : String → List Attachment → List ℕ
  attached id [] = []
  attached id (a ∷ as') =
      let rest = attached id as' in if str_eq a.id id then a.element ∷ rest else rest

  -- `Model.AttachedTo`: the boundary events of a task, sub-process or call activity.
  unfoldable pub attached_to : String → List ℕ
  unfolding attached
  attached_to id = attached id o.attachments

-- `getMultiInstance`: nil unless the element is a task, sub-process or call activity.
unfoldable pub get_multi_instance_of : ElementType → Element → Result (Option MultiInstance)
get_multi_instance_of business_rule_task e = as_task e.model
get_multi_instance_of script_task e = as_task e.model
get_multi_instance_of send_task e = as_task e.model
get_multi_instance_of service_task e = as_task e.model
get_multi_instance_of user_task e = as_task e.model
get_multi_instance_of call_activity e = as_call_activity e.model
get_multi_instance_of sub_process e = do s ← as_sub_process e.model; ok s.0
get_multi_instance_of _ e = ok none

unfoldable pub get_multi_instance : Element → Result (Option MultiInstance)
unfolding get_multi_instance_of
get_multi_instance e = get_multi_instance_of e.type e
