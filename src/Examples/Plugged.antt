-- ===== src/Examples/Plugged.antt =====
-- What src/libudev_fake.c makes of a gamepad.
use termux_gamepad.Prelude.{◌≡◌, ◌+◌, refl, true, false, not, [], ◌∷◌, ◌++◌, some, pos, ◌==◌}
use termux_gamepad.Wire.{encode_descriptor, encode_hotplug, control_message_size}
use termux_gamepad.Bridge.Device.{hotplug_message}
use termux_gamepad.Common.{codes, strlen}
use termux_gamepad.Gamepad.Net.{connected}
use termux_gamepad.Preload.Setup
use termux_gamepad.Preload.Opening.{node_of}
use termux_gamepad.Preload.Opening.Served.{fits, opened, new_fake}
use termux_gamepad.Preload.Reports.{input_id}
use termux_gamepad.Udev.{
  Udev, Contact, event_dev, joy_dev, udev_backend_enabled, update_descriptor, refresh_descriptor,
}
use termux_gamepad.Udev.Devices.{
  get_action, get_devnode, get_property_value, new_from_syspath, device_unref, refs,
}
use termux_gamepad.Udev.Listing.{get_list_entry, list_entry_get_name, scan_devices}
use termux_gamepad.Udev.Monitor.{receive_device}
use termux_gamepad.Udev.Asking.{Closes, refresh_descriptor-Closes}
use termux_gamepad.Udev.Identity.{Says, number_at, identities_agree}
use termux_gamepad.Udev.Plugging.{
  action_for, action_text, receive_device_mirrors, scan_devices_lists, listed_opens,
}
use termux_gamepad.Examples.Samples.{shown_descriptor}
use termux_gamepad.Examples.Loaded.{plain}
use termux_gamepad.Examples.Nodes.{shown_descriptor-IsDescriptor}

-- An enumeration asked for input devices, and a monitor is connected.
abbrev watching : Udev
watching = record {
  descriptor = shown_descriptor;
  vendor_string = codes "045e";
  product_string = codes "028e";
  udev_refs = 2;
  event_refs = 1;
  joy_refs = 1;
  parent_refs = 1;
  event_action = 0;
  enumerate_refs = 1;
  matched_input = true;
  monitor_refs = 1;
  monitor_fd = pos 4;
  closed = [];
  wire = [];
}

plain_enabled : udev_backend_enabled plain ≡ true
unfolding udev_backend_enabled
plain_enabled = refl

plain-fits : fits plain ≡ true
unfolding strlen
plain-fits = refl

receive_device_mirrors_example :
    let (dev, u') =
      receive_device plain true
        (encode_hotplug (hotplug_message (action_for shown_descriptor) shown_descriptor)
          ++ (1 ∷ []))
        watching in
    (dev ≡ some event_dev)
    × (get_action dev u' ≡ some (action_text shown_descriptor))
    × (u'.descriptor ≡ shown_descriptor)
    × (get_list_entry plain true u' ≡ not (shown_descriptor.present == 0))
receive_device_mirrors_example =
    receive_device_mirrors plain shown_descriptor (1 ∷ []) watching plain_enabled refl refl
      shown_descriptor-IsDescriptor

scan_devices_lists_example :
    let c : Contact = record {
      outcome = connected 9;
      sent = control_message_size;
      reply = encode_descriptor shown_descriptor ++ [];
    } in
    get_list_entry plain true (scan_devices plain true c watching).1
    ≡ not (shown_descriptor.present == 0)
scan_devices_lists_example =
    scan_devices_lists plain 9 shown_descriptor [] watching plain_enabled plain-fits refl
      shown_descriptor-IsDescriptor refl

watching_lists : get_list_entry plain true watching ≡ true
unfolding get_list_entry udev_backend_enabled
watching_lists = refl

listed_opens_example :
    let (dev, u') = new_from_syspath plain (list_entry_get_name true) watching in
    (node_of (get_devnode dev) ≡ some false)
    × (refs event_dev u' ≡ refs event_dev watching + 1)
    × (device_unref dev u' ≡ watching)
listed_opens_example = listed_opens plain watching watching_lists

identities_agree_example :
    let u' = update_descriptor plain shown_descriptor watching in
    let f = new_fake (pos 5) false shown_descriptor in
    Says plain u' joy_dev (codes "ID_VENDOR_ID") (number_at 2 (input_id plain f))
    × Says plain u' joy_dev (codes "ID_MODEL_ID") (number_at 4 (input_id plain f))
    × (get_property_value plain u' (some joy_dev) (some (codes "NAME"))
        ≡ some (Setup.device_name plain f))
identities_agree_example =
    identities_agree plain shown_descriptor (pos 5) false watching joy_dev plain_enabled

-- The bridge is there, and does not take the whole request.
abbrev half_sent : Contact
half_sent = record { outcome = connected 9; sent = 7; reply = [] }

refresh_descriptor-Closes_example :
    Closes
      (opened (fits plain) half_sent.outcome)
      watching
      (refresh_descriptor plain half_sent watching)
refresh_descriptor-Closes_example = refresh_descriptor-Closes plain half_sent watching plain_enabled
