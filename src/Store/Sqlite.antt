-- ===== src/Store/Sqlite.antt =====
-- `sqliteStore` as an implementation of the interface. Calls of the driver that fail for a reason
-- other than a constraint (a closed file, a lost transaction) are left out.
use psychic_funicular.Store.Api.{Store}
use psychic_funicular.Store.Rows.{Db}
use psychic_funicular.Store.Nodes
use psychic_funicular.Store.Jobs
use psychic_funicular.Store.Events

abbrev pub sqlite : Store
sqlite = record {
  State = Db;
  register_node = Nodes.register_node;
  heartbeat = Nodes.heartbeat;
  list_nodes = Nodes.list_nodes;
  get_node = Nodes.get_node;
  mark_stale_down = Nodes.mark_stale_down;
  create_job = Jobs.create_job;
  get_job = Jobs.get_job;
  list_jobs = Jobs.list_jobs;
  list_pending_jobs = Jobs.list_pending_jobs;
  list_active_jobs = Jobs.list_active_jobs;
  list_jobs_by_node_state = Jobs.list_jobs_by_node_state;
  assign_job = Jobs.assign_job;
  mark_job_running = Jobs.mark_job_running;
  finish_job = Jobs.finish_job;
  cancel_job = Jobs.cancel_job;
  create_event = Events.create_event;
  list_events = Events.list_events;
  create_notification = Events.create_notification;
  list_notifications = Events.list_notifications;
}
