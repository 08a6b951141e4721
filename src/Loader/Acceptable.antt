-- ===== src/Loader/Acceptable.antt =====
-- The monitors that src/core/config.cpp admits.
use pixel_status_nx.Prelude.{
  ℕ, ◌≤◌, ◌≡◌, refl, ◌∙◌, inl, inr, true, false, Option, none, some, List, [], Text, String, str,
  arith, leb, length, All, Option-cases, leb_ℤ, pos,
}
use pixel_status_nx.Floating.{Floating}
use pixel_status_nx.Time.{Duration, zero_ms}
use pixel_status_nx.Evaluator.{validate}
use pixel_status_nx.Evaluator.Validity.{IsName}
use pixel_status_nx.Engine.Run.{nonpositive}
use pixel_status_nx.Config.{find_text}
use pixel_status_nx.Config.Monitors.{PullMonitorConfig}
use pixel_status_nx.Json.{JsonLibrary}
use pixel_status_nx.Loader.{pushed}
use pixel_status_nx.Loader.Limits.{
  maximum_monitors, minimum_monitor_interval, maximum_monitor_interval, maximum_monitor_ttl,
}
use pixel_status_nx.Loader.Fields.{required_identifier, bounded_duration_value, field_path}
use pixel_status_nx.Loader.Policies.{Statuses, is_accepted, parse_evaluation_policy}
use pixel_status_nx.Loader.Monitors.{
  monitor_interval, monitor_ttl, read_monitor, parse_pull_monitor,
}
use pixel_status_nx.Loader.File.{load_monitors}
use pixel_status_nx.Loader.Results.{
  Ensures, Ensures-succeed, Ensures->>=, Ensures->>, Ensures-attempt, Ensures-guard, pushed-All,
  or_stop-Gives, both-some,
}
use pixel_status_nx.Loader.Fresh.{Fresh, length-pushed, parse_items-Fresh}
use pixel_status_nx.Loader.Fitting.{parse_items-AllEnsured}

-- A monitor whose name, times and policy are valid.
pub record IsAcceptable (fl : Floating) (m : PullMonitorConfig fl.Double) : Type 0 where
  pub id_name : IsName m.id
  pub interval_positive : leb_ℤ m.interval zero_ms ≡ false
  pub ttl_positive : nonpositive m.ttl ≡ false
  pub policy_valid : validate fl m.evaluation ≡ none

above_zero :
    (d minimum : Duration)
    → leb_ℤ minimum zero_ms ≡ false
    → leb_ℤ minimum d ≡ true
    → leb_ℤ d zero_ms ≡ false
above_zero d minimum h k = ground arith

module _ (fl : Floating) (json : JsonLibrary fl.Double) where
  required_identifier-IsName :
      (item : List (Text × json.Json)) (key : String) (path : Text)
      → Ensures IsName (required_identifier fl json item key path)
  unfolding required_identifier
  required_identifier-IsName item key path =
      Ensures->>= _ _ λ value _. Ensures-guard _ _ _ λ valid. Ensures-succeed value valid

  bounded_duration_value-positive :
      (value : json.Json) (path : Text) (minimum maximum : Duration)
      → leb_ℤ minimum zero_ms ≡ false
      → Ensures
          (λ d. leb_ℤ d zero_ms ≡ false)
          (bounded_duration_value fl json value path minimum maximum)
  unfolding bounded_duration_value
  bounded_duration_value-positive value path minimum maximum h = Ensures->>= _ _ λ text _.
      Ensures->>= _ _ λ d _.
        Ensures-guard _ _ _ λ between. Ensures-succeed d (above_zero d minimum h (ground arith))

  accepted_none : (o : Option Text) → is_accepted fl json o ≡ true → o ≡ none
  accepted_none none h = refl
  accepted_none (some error) h = cc h

  module _ (monitor : List (Text × json.Json)) (path : Text) where
    monitor_interval-positive :
        Ensures (λ d. leb_ℤ d zero_ms ≡ false) (monitor_interval fl json monitor path)
    unfolding monitor_interval
    monitor_interval-positive = Ensures->>= _ _ λ field _.
        bounded_duration_value-positive field _ minimum_monitor_interval maximum_monitor_interval
          refl

    monitor_ttl-positive :
        Ensures (λ ttl. nonpositive ttl ≡ false) (monitor_ttl fl json monitor path)
    unfolding monitor_ttl
    monitor_ttl-positive = elim (Option-cases (find_text (str "ttl") monitor)) [
      | inl e ↦ rw (e, monitor_ttl) (Ensures-succeed none refl)
      | inr (field, e) ↦
          rw (e, monitor_ttl)
            (Ensures->>= _ _ λ ttl h. Ensures-succeed (some ttl) (
              (bounded_duration_value-positive field (field_path path "ttl") (pos 1)
                  maximum_monitor_ttl refl).holds
                ttl h))
    ]

    parse_evaluation_policy-valid :
        (statuses : Statuses)
        → Ensures
            (λ p. validate fl p ≡ none)
            (parse_evaluation_policy fl json monitor path statuses)
    unfolding parse_evaluation_policy
    parse_evaluation_policy-valid statuses = Ensures-attempt _ _ λ failure _.
        Ensures-attempt _ _ λ no_match _. Ensures->>= _ _ λ evaluate _. Ensures-guard _ _ _ λ _.
          Ensures->>= _ _ λ rules _. Ensures->>= _ _ λ policy _. Ensures-guard _ _ _ λ ok.
            Ensures->>= _ _ λ _ _.
              Ensures->>= _ _ λ _ _. Ensures->> _ _ λ _. Ensures-succeed policy (accepted_none _ ok)

    read_monitor-IsAcceptable :
        (statuses : Statuses)
        → Ensures (IsAcceptable fl) (read_monitor fl json monitor path statuses)
    unfolding read_monitor
    read_monitor-IsAcceptable statuses = Ensures-attempt _ _ λ id i. Ensures-attempt _ _ λ type _.
        Ensures->> _ _ λ _. Ensures->>= _ _ λ known _. Ensures-attempt _ _ λ interval t.
          Ensures-attempt _ _ λ ttl l. Ensures-attempt _ _ λ evaluation p.
            Ensures-attempt _ _ λ source _. Ensures->>= _ _ λ all e.
              let (i_ok, later) = both-some _ _ (or_stop-Gives _ e) in
              let (t_ok, later') = both-some _ _ later in
              let (l_ok, later'') = both-some _ _ later' in
              let (p_ok, s_ok) = both-some _ _ later'' in
              Ensures-succeed _ (record {
                id_name = (required_identifier-IsName monitor "id" path).holds _ (i ∙ i_ok);
                interval_positive = monitor_interval-positive.holds _ (t ∙ t_ok);
                ttl_positive = monitor_ttl-positive.holds _ (l ∙ l_ok);
                policy_valid = (parse_evaluation_policy-valid statuses).holds _ (p ∙ p_ok);
              })

  parse_pull_monitor-IsAcceptable :
      (value : json.Json) (path : Text) (statuses : Statuses)
      → Ensures (IsAcceptable fl) (parse_pull_monitor fl json value path statuses)
  unfolding parse_pull_monitor
  parse_pull_monitor-IsAcceptable value path statuses =
      Ensures->>= _ _ λ monitor _. read_monitor-IsAcceptable monitor path statuses

-- What holds of a list of monitors that is loaded.
pub record AreAcceptable (fl : Floating) (ms : List (PullMonitorConfig fl.Double)) : Type 0 where
  pub acceptable : All (IsAcceptable fl) ms
  pub distinct : Fresh (λ m. m.id) [] ms
  pub bounded : length ms ≤ maximum_monitors

at_most : (n limit : ℕ) → leb n limit ≡ true → n ≤ limit
at_most n limit h = ground arith

pub no_monitors : (fl : Floating) → AreAcceptable fl []
no_monitors fl = record { acceptable = tt; distinct = tt; bounded = omega arith }

pub load_monitors-AreAcceptable :
    (fl : Floating) (json : JsonLibrary fl.Double) (root : List (Text × json.Json))
    (statuses : Statuses)
    → Ensures (AreAcceptable fl) (load_monitors fl json root statuses)
unfolding load_monitors
load_monitors-AreAcceptable fl json root statuses =
    elim (Option-cases (find_text (str "monitors") root)) [
      | inl e ↦ rw (e, load_monitors) (Ensures-succeed [] (no_monitors fl))
      | inr (value, e) ↦
          rw (e, load_monitors)
            (Ensures->>= _ _ λ items _. Ensures-guard _ _ _ λ few. Ensures->>= _ _ λ os h.
              let (new, same) =
                (parse_items-Fresh fl json (λ m. m.id) (str " duplicates an earlier monitor")
                    (λ item path. parse_pull_monitor fl json item path statuses) (str "monitors")
                    items [] 0).holds
                  os h in
              Ensures-succeed (pushed os) (record {
                acceptable = pushed-All (IsAcceptable fl) os (
                    (parse_items-AllEnsured fl json (IsAcceptable fl) _ _ _ _
                        (λ item path. parse_pull_monitor-IsAcceptable fl json item path statuses)
                        items [] 0).holds
                      os h);
                distinct = new;
                bounded =
                    omega
                      (arith, length-pushed os, same, at_most (length items) maximum_monitors few);
              }))
    ]
