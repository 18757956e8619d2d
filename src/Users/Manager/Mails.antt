-- ===== src/Users/Manager/Mails.antt =====
-- The mails that the hooks of users/manager.py.jinja queue, and the worker that sends them: one
-- call of `send_email_task` of jobs/tasks.py.jinja for each job, in order.
use Prim.Native.String.{◌++◌ as append}
use python_backend_manager.Prelude.Base.{
  String, ◌≡◌, refl, Bool, true, false, Option, some, List, [], ◌∷◌, ◌++◌,
}
use python_backend_manager.Jobs.{Pooled, queued, unreachable, enqueue}
use python_backend_manager.Email.Ports.{recipients_of}
use python_backend_manager.Email.Templating.{Engine, returns, render, render_optional}
use python_backend_manager.Email.Adapters.{
  EmailSettings, ses_is_configured, sender_address, sent_by,
}
use python_backend_manager.Email.Provider.{Post, Transports, send_email_task, on_servers}
use python_backend_manager.Email.Provider.Selected.{send_email_task-ses}
use python_backend_manager.Users.Manager.{
  MailJob, welcome_job, reset_job, on_after_register, on_after_forgot_password,
}

module _ {Q : Type 0} (project_name : String) (enqueue_job : MailJob → Q → Pooled Q) where
  -- With the backend of the queue unreachable, both hooks return and queue nothing, so that the
  -- registration and the reset request go on.
  pub hooks_survive_outage :
      (email token : String) (q : Q)
      → ((job : MailJob) → enqueue_job job q ≡ unreachable)
      → (on_after_register project_name enqueue_job email q ≡ (some tt, q))
        × (on_after_forgot_password project_name enqueue_job email token q ≡ (some tt, q))
  unfolding on_after_register on_after_forgot_password enqueue
  hooks_survive_outage email token q h = (
    rw (h (welcome_job project_name email)) refl,
    rw (h (reset_job project_name email token)) refl,
  )

queued_hook :
    (project_name : String) (enqueue_job : MailJob → List MailJob → Pooled (List MailJob))
    (email token : String) (q : List MailJob)
    → let job = reset_job project_name email token in
      enqueue_job job q ≡ queued (q ++ job ∷ [])
      → (on_after_forgot_password project_name enqueue_job email token q).1 ≡ q ++ job ∷ []
unfolding on_after_forgot_password enqueue
queued_hook project_name enqueue_job email token q h = rw h refl

servers_sent :
    {V W : Type 0} (p : Post V W) (call : Bool × W)
    → (on_servers p (sent_by call)).1.servers ≡ call.1
servers_sent p (true, w) = refl
servers_sent p (false, w) = refl

module _ {T M W : Type 0} (engine : Engine T String) (transports : Transports M W)
    (s : EmailSettings) where
  -- The worker: what a job raises is logged, and the next job runs.
  unfoldable pub work : List MailJob → Post String W → Post String W
  work [] p = p
  work (job ∷ jobs) p =
      work jobs
        (send_email_task engine transports s job.to job.subject job.template (some job.context) p).1

  work-append :
      (jobs more : List MailJob) (p : Post String W)
      → work (jobs ++ more) p ≡ work more (work jobs p)
  unfolding work
  work-append [] more p = refl
  work-append (job ∷ jobs) more p = work-append jobs more _

  work-one :
      (job : MailJob) (p : Post String W)
      → work (job ∷ []) p
        ≡ (send_email_task engine transports s job.to job.subject job.template
            (some job.context)
            p).1
  unfolding work
  work-one job p = refl

  -- Where the queue takes the job behind those that wait, SES is selected and configured, and the
  -- template "password_reset" renders with the token, the reset mail is the last call of SES: to
  -- the address of the user alone, with the HTML and the text rendered from that token.
  pub on_after_forgot_password-mails :
      (project_name : String) (enqueue_job : MailJob → List MailJob → Pooled (List MailJob))
      (email token html : String) (text : Option String) (q : List MailJob) (p : Post String W)
      → ((job : MailJob) → enqueue_job job q ≡ queued (q ++ job ∷ []))
      → s.email_suppress_send ≡ false
      → s.email_provider ≡ "ses"
      → ses_is_configured s ≡ true
      → render engine "password_reset.html" (reset_job project_name email token).context
        ≡ returns html
      → render_optional engine "password_reset.txt" (reset_job project_name email token).context
        ≡ returns text
      → (work (on_after_forgot_password project_name enqueue_job email token q).1 p).servers
        ≡ (transports.ses
            (record {
              from = sender_address s;
              to = email ∷ [];
              content = record {
                subject = append "Reset your " (append project_name " password");
                html = some html;
                text = text;
              };
            })
            (work q p).servers).1
  unfolding reset_job recipients_of
  on_after_forgot_password-mails project_name enqueue_job email token html text q p fifo on ses
        configured rh rt =
      let job = reset_job project_name email token in
      let sent =
        send_email_task-ses engine transports s job.to job.subject "password_reset" html text
          (some job.context) (work q p) on ses configured rh rt in
      rw
        (
          queued_hook project_name enqueue_job email token q (fifo job),
          work-append q (job ∷ []) p,
          work-one job (work q p),
          sent,
          servers_sent,
        )
        refl
