-- ===== src/Loader/Reported.antt =====
-- The errors of `load_config_file` (src/core/config.cpp) beside its configuration.
use pixel_status_nx.Prelude.{
  ◌≡◌, refl, Bool, true, false, Option, none, some, List, [], ◌∷◌, ◌++◌, Text, String, arith,
  length, is_some, ◌==◌, Bool-cases, inl, inr,
}
use pixel_status_nx.Floating.{Floating}
use pixel_status_nx.Config.{AppConfig}
use pixel_status_nx.Json.{JsonLibrary}
use pixel_status_nx.Loader.{
  Load, loaded, result_of, errors_of, after, report, succeed, refuse, attempt, or_refuse, ◌>>=◌,
  ◌>>◌, guard,
}
use pixel_status_nx.Loader.Fields.{is_allowed, reject_unknown_fields}
use pixel_status_nx.Loader.File.{
  ConfigFile, unopened, opened, load_root, load_result, read_config, load_config_file,
}

-- Without an error there is a value.
record IsReported {A : Type 0} (m : Load A) : Type 0 where
  reported : errors_of m ≡ [] → is_some (result_of m) ≡ true

module _ {A : Type 0} where
  succeed-IsReported : (a : A) → IsReported (succeed a)
  unfolding succeed
  succeed-IsReported a = record { reported = λ h. refl }

  refuse-IsReported : (message : Text) → IsReported (refuse {A = A} message)
  unfolding refuse
  refuse-IsReported message = record { reported = λ h. cc h }

  or_refuse-IsReported : (o : Option A) (message : Text) → IsReported (or_refuse o message)
  unfolding or_refuse
  or_refuse-IsReported none message = refuse-IsReported message
  or_refuse-IsReported (some a) message = succeed-IsReported a

  attempt-IsReported : (m : Load A) → IsReported (attempt m)
  unfolding attempt
  attempt-IsReported (loaded result errors) = record { reported = λ h. refl }

guard-IsReported : (b : Bool) (message : Text) → IsReported (guard b message)
unfolding guard
guard-IsReported true message = succeed-IsReported tt
guard-IsReported false message = refuse-IsReported message

no_errors : (before later : List Text) → before ++ later ≡ [] → (before ≡ []) × (later ≡ [])
no_errors [] later h = (refl, h)
no_errors (e ∷ rest) later h = cc h

module _ {A B : Type 0} where
  >>=-IsReported :
      (m : Load A) (f : A → Load B)
      → IsReported m
      → ((a : A) → IsReported (f a))
      → IsReported (m >>= f)
  unfolding ◌>>=◌
  >>=-IsReported (loaded none errors) f h k = record { reported = λ e. cc (h.reported e) }
  >>=-IsReported (loaded (some a) errors) f h k = after-IsReported errors (f a) (k a)
    where
      after-IsReported :
          (before : List Text) (n : Load B) → IsReported n → IsReported (after before n)
      after-IsReported before (loaded result later) h = record {
        reported = λ e. h.reported (no_errors before later e).1;
      }

>>-IsReported :
    {B : Type 0} (m : Load (Unit {0})) (k : Load B)
    → IsReported m
    → IsReported k
    → IsReported (m >> k)
unfolding ◌>>◌
>>-IsReported m k h l = >>=-IsReported m (λ _. k) h (λ _. l)

module _ (fl : Floating) (json : JsonLibrary fl.Double) where
  reject_unknown_fields-IsReported :
      (object : List (Text × json.Json)) (allowed : List String) (path : Text)
      → IsReported (reject_unknown_fields fl json object allowed path)
  unfolding reject_unknown_fields
  reject_unknown_fields-IsReported [] allowed path = succeed-IsReported tt
  reject_unknown_fields-IsReported ((key, value) ∷ rest) allowed path =
      let later = reject_unknown_fields-IsReported rest allowed path in
      elim (Bool-cases (is_allowed allowed key)) [
        | inl e ↦ rw (e, reject_unknown_fields) later
        | inr e ↦
            rw (e, reject_unknown_fields)
              (>>-IsReported _ _ (record { reported = λ h. unfold report in refl }) later)
      ]

  load_root-IsReported : (root : List (Text × json.Json)) → IsReported (load_root fl json root)
  unfolding load_root
  load_root-IsReported root = >>-IsReported _ _ (reject_unknown_fields-IsReported root _ _) (
      >>=-IsReported _ _ (attempt-IsReported _) λ schema.
        >>=-IsReported _ _ (attempt-IsReported _) λ display.
          >>=-IsReported _ _ (attempt-IsReported _) λ statuses.
            >>=-IsReported _ _ (attempt-IsReported _)
              λ monitors. >>=-IsReported _ _ (attempt-IsReported _) λ content. succeed-IsReported _)

  read_config-IsReported :
      (path : Text) (file : ConfigFile) → IsReported (read_config fl json path file)
  unfolding read_config
  read_config-IsReported path unopened = refuse-IsReported _
  read_config-IsReported path (opened size contents) = >>-IsReported _ _ (guard-IsReported _ _) (
      >>=-IsReported _ _ (or_refuse-IsReported _ _)
        λ text. >>=-IsReported _ _ (or_refuse-IsReported _ _) λ root. load_root-IsReported root)

  load_result-reported :
      (m : Load (AppConfig fl.Double))
      → IsReported m
      → is_some (load_result fl json m).config ≡ length (load_result fl json m).errors == 0
  unfolding load_result
  load_result-reported (loaded result []) h = h.reported refl
  load_result-reported (loaded result (e ∷ rest)) h = ground arith

  -- Whatever the file, the loader returns a configuration exactly if it returns no error: a file that
  -- is refused always has a message.
  pub load_config_file-reported :
      (path : Text) (file : ConfigFile)
      → (let r = load_config_file fl json path file in is_some r.config ≡ length r.errors == 0)
  unfolding load_config_file
  load_config_file-reported path file =
      load_result-reported (read_config fl json path file) (read_config-IsReported path file)
