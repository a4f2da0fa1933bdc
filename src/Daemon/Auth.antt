-- ===== src/Daemon/Auth.antt =====
-- govisord/main.go `MyHandler`, and the part of `main` that sets it up.
use govisor.Common.{
  String, Bool, true, false, ◌≡◌, refl, sym, ap, ◌∙◌, Option, none, some, List, [], ◌∷◌, ◌⊎◌, inl,
  inr, arith, Bool-cases, Option-cases, Sum-cases, if◌then◌else◌, str_eq, str_append,
}
use govisor.Common.Table.{Table, lookup, store}
use govisor.Name.{split_name}
use govisor.Client.Http.{Failure}
use govisor.Server.Http.{Response, blank, http_error}

pub record MyHandler : Type 0 where
  pub auth : Bool
  pub passwd : Table String
  pub name : String

-- bcrypt, `path.Join`, the quoting of `%q`, and the files: whether one is there, and what the
-- reader of its records gives, up to the end or an error.
pub record System : Type 0 where
  pub accepts : String → String → Bool
  pub generate : String → Failure ⊎ String
  pub join : String → String → String
  pub quoted : String → String
  pub exists : String → Bool
  pub read_records : String → Failure ⊎ List (String × String) × Option Failure

-- `needAuth`
unfoldable pub need_auth : System → MyHandler → Response
need_auth sys h =
    http_error 401 "Unauthorized"
      (record blank { authenticate = str_append "Basic realm=" (sys.quoted h.name) })

-- `h.passwd[rec[0]] = rec[1]`, for each record.
unfoldable pub put_records : List (String × String) → Table String → Table String
unfolding store
put_records [] t = t
put_records ((user, enc) ∷ rs) t = put_records rs (store user enc t)

unfoldable pub load_records :
    List (String × String) × Option Failure → MyHandler → Option Failure × MyHandler
unfolding put_records
load_records (rs, some e) h = (some e, record h { passwd = put_records rs h.passwd })
load_records (rs, none) h = (none, record h { auth = true; passwd = put_records rs h.passwd })

module _ (sys : System) where
  unfoldable pub load_passwd_file : String → MyHandler → Option Failure × MyHandler
  unfolding load_records
  load_passwd_file n h = elim (sys.read_records n) [
    | inl e ↦ (some e, h)
    | inr r ↦ load_records r h
  ]

  -- `bcrypt.CompareHashAndPassword`, if the user is known.
  unfoldable pub password_ok : Option String → String → Bool
  password_ok none pass = false
  password_ok (some enc) pass = sys.accepts enc pass

  -- Whether `ServeHTTP` passes the request on; `login` is what `BasicAuth` finds in it.
  unfoldable pub admitted : MyHandler → Option (String × String) → Bool
  unfolding password_ok lookup
  admitted h none = if h.auth then false else true
  admitted h (some (user, pass)) = if h.auth then password_ok (lookup user h.passwd) pass else true

  -- `ServeHTTP`, with the response of the server.
  unfoldable pub serve_http : MyHandler → Option (String × String) → Response → Response
  unfolding admitted need_auth
  serve_http h login r = if admitted h login then r else need_auth sys h

  -- `-passwd user:password`; none is the end of the program.
  unfoldable pub generate_passwd : String → MyHandler → Option MyHandler
  unfolding split_name store
  generate_passwd genpass h =
      if str_eq genpass ""
      then some h
      else let p = split_name genpass in
        elim p.variant [
          | none ↦ none
          | some pass ↦ elim (sys.generate pass) [
            | inl e ↦ none
            | inr enc ↦ some (record h { auth = true; passwd = store p.base enc h.passwd })
          ]
        ]

  abbrev pub unless_failed : Option Failure × MyHandler → Option MyHandler
  unless_failed (none, h) = some h
  unless_failed (some e, h) = none

  -- `-passfile`, or else the file `passwd` of the directory.
  unfoldable pub load_passwd : String → String → MyHandler → Option MyHandler
  unfolding load_passwd_file
  load_passwd passfile dir h =
      if str_eq passfile ""
      then (if sys.exists (sys.join dir "passwd")
          then unless_failed (load_passwd_file (sys.join dir "passwd") h)
          else some h)
      else unless_failed (load_passwd_file passfile h)

  unfoldable pub set_up : String → String → String → String → Option MyHandler
  unfolding generate_passwd load_passwd
  set_up name genpass passfile dir =
      elim (generate_passwd genpass (record { auth = false; passwd = []; name = name })) [
        | none ↦ none
        | some h ↦ load_passwd passfile dir h
      ]

  -- Whether passwords are asked for, on the command line or in the directory.
  unfoldable pub asks : String → String → String → Bool
  asks genpass passfile dir =
      if str_eq genpass ""
      then (if str_eq passfile "" then sys.exists (sys.join dir "passwd") else true)
      else true

  -- A handler that is set up asks for passwords.
  guarded : Option MyHandler → Bool
  guarded none = true
  guarded (some h) = h.auth

  load_passwd_file-guarded :
      (n : String) (h : MyHandler) → guarded (unless_failed (load_passwd_file n h)) ≡ true
  unfolding load_passwd_file load_records guarded
  load_passwd_file-guarded n h = elim (Sum-cases (sys.read_records n)) [
    | inl (e, f) ↦ rw (f, load_passwd_file) refl
    | inr ((rs, none), f) ↦ rw (f, load_passwd_file) refl
    | inr ((rs, some e), f) ↦ rw (f, load_passwd_file) refl
  ]

  load_passwd-guarded :
      (passfile dir : String) (h : MyHandler)
      → (if str_eq passfile "" then sys.exists (sys.join dir "passwd") else true) ≡ true
        ⊎ h.auth ≡ true
      → guarded (load_passwd passfile dir h) ≡ true
  unfolding load_passwd guarded
  load_passwd-guarded passfile dir h ask = elim (Bool-cases (str_eq passfile "")) [
    | inr e ↦ rw (e, load_passwd) (load_passwd_file-guarded passfile h)
    | inl e ↦ elim (Bool-cases (sys.exists (sys.join dir "passwd"))) [
      | inl f ↦ rw (e, f, load_passwd) (load_passwd_file-guarded (sys.join dir "passwd") h)
      | inr f ↦ rw (e, f, load_passwd) (ground (arith, e, f, ask))
    ]
  ]

  generate_passwd-guarded :
      (genpass : String) (h : MyHandler)
      → str_eq genpass "" ≡ false
      → guarded (generate_passwd genpass h) ≡ true
  unfolding generate_passwd guarded
  generate_passwd-guarded genpass h e = elim (Option-cases (split_name genpass).variant) [
    | inl f ↦ rw (e, f, generate_passwd) refl
    | inr (pass, f) ↦ elim (Sum-cases (sys.generate pass)) [
      | inl (x, g) ↦ rw (e, f, g, generate_passwd) refl
      | inr (x, g) ↦ rw (e, f, g, generate_passwd) refl
    ]
  ]

  set_up-guarded :
      (name genpass passfile dir : String)
      → asks genpass passfile dir ≡ true
      → guarded (set_up name genpass passfile dir) ≡ true
  unfolding set_up asks guarded
  set_up-guarded name genpass passfile dir ask =
      let h : MyHandler = record { auth = false; passwd = []; name = name } in
      elim (Option-cases (generate_passwd genpass h)) [
        | inl e ↦ rw (e, set_up) refl
        | inr (g, e) ↦
            rw (e, set_up)
              (load_passwd-guarded passfile dir g (elim (Bool-cases (str_eq genpass "")) [
                | inl f ↦ inl (rw (f, asks) at ask)
                | inr f ↦ inr (sym (ap guarded e) ∙ generate_passwd-guarded genpass h f)
              ]))
      ]

  -- A login with the name of a user in the table and a password that bcrypt accepts for its entry.
  pub data Valid (h : MyHandler) : Option (String × String) → Type 0 where
    valid :
        {user pass enc : String}
        → lookup user h.passwd ≡ some enc
        → sys.accepts enc pass ≡ true
        → Valid h (some (user, pass))

  -- What is answered to such a request, and what to any other.
  pub Answered : MyHandler → Option (String × String) → Response → Response → Type 0
  Answered h login r a = (Valid h login × (a ≡ r)) ⊎ (¬ (Valid h login) × (a ≡ need_auth sys h))

  no_login : (h : MyHandler) → ¬ (Valid h none)
  no_login h v = elim v [ ]

  unknown_user :
      (h : MyHandler) (user pass : String)
      → lookup user h.passwd ≡ none
      → ¬ (Valid h (some (user, pass)))
  unknown_user h user pass e (valid f g) = ground (arith, e, f)

  wrong_password :
      (h : MyHandler) (user pass enc : String)
      → lookup user h.passwd ≡ some enc
      → sys.accepts enc pass ≡ false
      → ¬ (Valid h (some (user, pass)))
  wrong_password h user pass enc e g (valid {enc = other} f a) =
      let same : enc ≡ other = ground (arith, e, f) in ground (arith, g, rw (sym same) at a)

  serve_http-Answered :
      (h : MyHandler) (login : Option (String × String)) (r : Response)
      → h.auth ≡ true
      → Answered h login r (serve_http h login r)
  unfolding Answered serve_http admitted password_ok
  serve_http-Answered h none r on = inr (no_login h, rw (serve_http, admitted, on) refl)
  serve_http-Answered h (some (user, pass)) r on = elim (Option-cases (lookup user h.passwd)) [
    | inl e ↦ inr (unknown_user h user pass e, rw (serve_http, admitted, on, e, password_ok) refl)
    | inr (enc, e) ↦ elim (Bool-cases (sys.accepts enc pass)) [
      | inr f ↦ inr (
        wrong_password h user pass enc e f,
        rw (serve_http, admitted, on, e, password_ok, f) refl,
      )
      | inl f ↦ inl (valid e f, rw (serve_http, admitted, on, e, password_ok, f) refl)
    ]
  ]

  -- If a password is given on the command line, or a password file is given or found, then the
  -- handler that main sets up passes a request on to the server if it has the name of a user in
  -- its table and a password that bcrypt accepts for the entry, and answers any other request
  -- that it is to log in.
  pub serve_http-set_up :
      (name genpass passfile dir : String) (h : MyHandler) (login : Option (String × String))
      (r : Response)
      → asks genpass passfile dir ≡ true
      → set_up name genpass passfile dir ≡ some h
      → Answered h login r (serve_http h login r)
  unfolding guarded
  serve_http-set_up name genpass passfile dir h login r ask e =
      let on : h.auth ≡ true = sym (ap guarded e) ∙ set_up-guarded name genpass passfile dir ask in
      serve_http-Answered h login r on
